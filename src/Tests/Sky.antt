-- ===== src/Tests/Sky.antt =====
-- A small sky of twelve pixels, along which only the longitude counts, and numpy's sorting.
use sims_utils.Base.{
  ℕ, suc, ◌+◌, ◌%◌, ◌≤◌, ◌<◌, ◌≡◌, refl, sym, subst, ◌∙◌, true, false, none, some, inl, inr, List,
  [], ◌∷◌, arith, map, length, get_elem?, if◌then◌else◌, ltb, ◌==◌, Bool-cases,
}
use sims_utils.Base.Int.{ℤ, pos, negsuc, pos_part, ◌-ℤ◌, ◌+ℤ◌}
use sims_utils.Base.Dict.{contains}
use sims_utils.Base.Result.{ok, ok-injective}
use sims_utils.Numpy.{Numpy}
use sims_utils.Healpy.{Healpy, IsHealpy}
use sims_utils.Healpix.Arrays.{from, take_at, All, SplitsAt, IsSorted}
use mathlib.Core.List.{Permᴰ}
use mathlib.Core.List.Permᴰ

-- An array of angles in whole degrees; a number is an array of one.
abbrev pub Arr : Type 0
Arr = List ℤ

abbrev first : Arr → ℤ
first [] = pos 0
first (x ∷ xs) = x

abbrev pub arrays : Numpy
arrays = record {
  Object = Arr;
  literal = λ s. pos 0 ∷ [];
  add = λ x y. map (λ b. first x +ℤ b) y;
  sub = λ x y. map (λ b. first x -ℤ b) y;
  mul = λ x y. y;
  div = λ x y. x;
  mod_ = λ x y. x;
  lt = λ x y. false;
  eq = λ x y. false;
  same_key = λ x y. false;
  pi = pos 0 ∷ [];
  radians = λ x. x;
  degrees = λ x. x;
  sin = λ x. x;
  cos = λ x. x;
  arcsin = λ x. x;
  arccos = λ x. x;
  arctan2 = λ x y. x;
  sqrt = λ x. x;
  neg = λ x. x;
  sign = λ x. x;
  abs = λ x. x;
  nan = pos 0 ∷ [];
  is_nan = λ x. false;
  is_float = λ x. false;
  is_int = λ x. false;
  is_number = λ x. true;
  to_float = λ x. none;
  items? = λ x. none;
  iter? = λ x. none;
  format_f = λ x. "";
  format_s = λ x. "";
}

-- The items with their places, ordered by item.
abbrev put_in : ℕ × ℕ → List (ℕ × ℕ) → List (ℕ × ℕ)
put_in (k, i) [] = (k, i) ∷ []
put_in (k, i) ((j, n) ∷ ps) = if ltb j k then (j, n) ∷ put_in (k, i) ps else (k, i) ∷ (j, n) ∷ ps

abbrev places : List ℕ → ℕ → List (ℕ × ℕ)
places [] i = []
places (k ∷ ks) i = put_in (k, i) (places ks (suc i))

abbrev key : ℕ × ℕ → ℕ
key (k, i) = k

abbrev place : ℕ × ℕ → ℕ
place (k, i) = i

abbrev argsort : List ℕ → List ℕ
argsort ks = map place (places ks 0)

abbrev unique : List ℕ → List ℕ
unique [] = []
unique (k ∷ ks) = if contains ◌==◌ k ks then unique ks else k ∷ unique ks

abbrev search_left : List ℕ → ℕ → ℕ
search_left [] k = 0
search_left (j ∷ ks) k = if ltb j k then suc (search_left ks k) else 0

abbrev search_right : List ℕ → ℕ → ℕ
search_right [] k = 0
search_right (j ∷ ks) k = if ltb k j then 0 else suc (search_right ks k)

abbrev pub sky : Healpy arrays
sky = record {
  ang2pix = λ nside lat lon. map (λ x. pos_part x % 12) lon;
  pix2ang = λ nside ids. (map (λ i. pos 0) ids, map pos ids);
  nside2npix = λ nside. 12;
  unseen = pos 0 ∷ [];
  is_nan = λ x. false;
  argsort = argsort;
  unique = unique;
  search_left = search_left;
  search_right = search_right;
}

put_in-Permᴰ :
    (k i : ℕ) (ps : List (ℕ × ℕ)) → Permᴰ (map place (put_in (k, i) ps)) (i ∷ map place ps)
put_in-Permᴰ k i [] = Permᴰ.refl (i ∷ [])
put_in-Permᴰ k i ((j, n) ∷ ps) =
    elim (ltb j k)
      as (λ b.
        Permᴰ (map place (if b then (j, n) ∷ put_in (k, i) ps else (k, i) ∷ (j, n) ∷ ps))
          (i ∷ n ∷ map place ps)) [
            | true ↦ Permᴰ.trans (Permᴰ.cons refl (put_in-Permᴰ k i ps)) (Permᴰ.swap refl refl)
            | false ↦ Permᴰ.refl (i ∷ n ∷ map place ps)
          ]

places-Permᴰ : (ks : List ℕ) (i : ℕ) → Permᴰ (map place (places ks i)) (from i (length ks))
places-Permᴰ [] i = Permᴰ.nil
places-Permᴰ (k ∷ ks) i =
    Permᴰ.trans (put_in-Permᴰ k i (places ks (suc i))) (Permᴰ.cons refl (places-Permᴰ ks (suc i)))

put_in-All :
    (P : ℕ × ℕ → Type 0) (k i : ℕ) (ps : List (ℕ × ℕ))
    → P (k, i)
    → All P ps
    → All P (put_in (k, i) ps)
put_in-All P k i [] h hs = (h, tt)
put_in-All P k i ((j, n) ∷ ps) h (h', hs) =
    elim (ltb j k) as (λ b. All P (if b then (j, n) ∷ put_in (k, i) ps else (k, i) ∷ (j, n) ∷ ps)) [
      | true ↦ (h', put_in-All P k i ps h hs)
      | false ↦ (h, (h', hs))
    ]

places-All :
    (P : ℕ × ℕ → Type 0) (ks : List ℕ) (i : ℕ)
    → ((n k : ℕ) → get_elem? ks n ≡ some k → P (k, i + n))
    → All P (places ks i)
places-All P [] i h = tt
places-All P (k ∷ ks) i h =
    put_in-All P k i (places ks (suc i)) (subst (λ n. P (k, n)) (omega arith) (h 0 k refl))
      (places-All P ks (suc i) (λ n j e. subst (λ m. P (j, m)) (omega arith) (h (suc n) j e)))

above-All : (a b : ℕ) (ks : List ℕ) → a ≤ b → All (λ j. b ≤ j) ks → All (λ j. a ≤ j) ks
above-All a b [] le h = tt
above-All a b (k ∷ ks) le (h, hs) = (omega arith, above-All a b ks le hs)

put_in-above :
    (a k i : ℕ) (ps : List (ℕ × ℕ))
    → a ≤ k
    → All (λ j. a ≤ j) (map key ps)
    → All (λ j. a ≤ j) (map key (put_in (k, i) ps))
put_in-above a k i [] h hs = (h, tt)
put_in-above a k i ((j, n) ∷ ps) h (h', hs) =
    elim (ltb j k)
      as (λ b.
        All (λ m. a ≤ m)
          (map key (if b then (j, n) ∷ put_in (k, i) ps else (k, i) ∷ (j, n) ∷ ps))) [
            | true ↦ (h', put_in-above a k i ps h hs)
            | false ↦ (h, (h', hs))
          ]

put_in-IsSorted :
    (k i : ℕ) (ps : List (ℕ × ℕ)) → IsSorted (map key ps) → IsSorted (map key (put_in (k, i) ps))
put_in-IsSorted k i [] h = (tt, tt)
put_in-IsSorted k i ((j, n) ∷ ps) (low, h) = elim (Bool-cases (ltb j k)) [
  | inl e ↦ rw e (put_in-above j k i ps (ground arith) low, put_in-IsSorted k i ps h)
  | inr e ↦ rw e ((ground arith, above-All k j (map key ps) (ground arith) low), (low, h))
]

places-IsSorted : (ks : List ℕ) (i : ℕ) → IsSorted (map key (places ks i))
places-IsSorted [] i = tt
places-IsSorted (k ∷ ks) i = put_in-IsSorted k i (places ks (suc i)) (places-IsSorted ks (suc i))

take_at-places :
    (ks : List ℕ) (ps : List (ℕ × ℕ))
    → All (λ p. get_elem? ks (place p) ≡ some (key p)) ps
    → take_at ks (map place ps) ≡ ok (map key ps)
unfolding take_at
take_at-places ks [] h = refl
take_at-places ks ((k, i) ∷ ps) (h, hs) = rw (h, take_at-places ks ps hs) refl

unique_contains : (ks : List ℕ) (k : ℕ) → contains ◌==◌ k (unique ks) ≡ contains ◌==◌ k ks
unique_contains [] k = refl
unique_contains (j ∷ ks) k = ground (arith, unique_contains ks k)

from_here : (P Q : ℕ → Type 0) (ks : List ℕ) → All Q ks → SplitsAt P Q ks 0
from_here P Q [] h = tt
from_here P Q (k ∷ ks) (h, hs) = (h, from_here P Q ks hs)

left :
    (ks : List ℕ) (k : ℕ) → IsSorted ks → SplitsAt (λ j. j < k) (λ j. k ≤ j) ks (search_left ks k)
left [] k h = tt
left (j ∷ ks) k (low, h) = elim (Bool-cases (ltb j k)) [
  | inl e ↦ rw e (ground arith, left ks k h)
  | inr e ↦ rw e (ground arith, from_here _ _ ks (above-All k j ks (ground arith) low))
]

right :
    (ks : List ℕ) (k : ℕ) → IsSorted ks → SplitsAt (λ j. j ≤ k) (λ j. k < j) ks (search_right ks k)
right [] k h = tt
right (j ∷ ks) k (low, h) = elim (Bool-cases (ltb k j)) [
  | inl e ↦ rw e (ground arith, from_here _ _ ks (above-All (suc k) j ks (ground arith) low))
  | inr e ↦ rw e (ground arith, right ks k h)
]

pixels : (lon : List ℤ) → All (λ k. k < 12) (map (λ x. pos_part x % 12) lon)
pixels [] = tt
pixels (x ∷ lon) = (omega arith, pixels lon)

plus_none : (n : ℕ) → 0 + n ≡ n
plus_none n = omega arith

pub sky-IsHealpy : IsHealpy arrays sky
sky-IsHealpy = record {
  pixels = λ nside lat lon. pixels lon;
  argsort_perm = λ ks. places-Permᴰ ks 0;
  argsort_sorts = λ ks js e.
      subst IsSorted
        (ok-injective (
          sym (
            take_at-places ks (places ks 0) (
              places-All (λ p. get_elem? ks (place p) ≡ some (key p)) ks 0
                (λ n k e. rw (plus_none n) e)))
          ∙ e))
        (places-IsSorted ks 0);
  unique_contains = unique_contains;
  left = left;
  right = right;
}

twice : (x : ℤ) → pos 0 -ℤ (pos 0 -ℤ x) ≡ x
twice (pos n) = ground arith
twice (negsuc n) = ground arith

pub reflected : (x : Arr) → map (λ b. pos 0 -ℤ b) (map (λ b. pos 0 -ℤ b) x) ≡ x
reflected [] = refl
reflected (b ∷ x) = rw (twice b, reflected x) refl
