-- ===== src/Healpix/Arrays.antt =====
-- python/lsst/sims/utils/healpyUtils.py: what the binning does with numpy's arrays.
use sims_utils.Base.{
  ℕ, zero, suc, ◌+◌, ◌≤◌, ◌<◌, ◌≡◌, refl, sym, subst, ◌∙◌, inl, inr, Bool-cases, true, Option, some,
  none, List, [], ◌∷◌, arith, length, get_elem?, if◌then◌else◌, ◌==◌, map,
}
use sims_utils.Base.Dict.{contains}
use mathlib.Core.List.{Permᴰ}
use sims_utils.Base.Result.{Result, ok, err, ok-injective, or_raise, ◌>>=◌}

pub data IndexError : Type 0 where
  out_of_range : IndexError

-- `0, 1, ..., n - 1`, from any first number
abbrev pub from : ℕ → ℕ → List ℕ
from i zero = []
from i (suc n) = i ∷ from (suc i) n

module _ {ℓ} {A : Type ℓ} where
  abbrev pub All : (A → Type 0) → List A → Type 0
  All P [] = Unit
  All P (x ∷ xs) = P x × All P xs

  -- The items before i meet P, and those from i on meet Q.
  abbrev pub SplitsAt : (A → Type 0) → (A → Type 0) → List A → ℕ → Type 0
  SplitsAt P Q [] i = Unit
  SplitsAt P Q (x ∷ xs) zero = Q x × SplitsAt P Q xs zero
  SplitsAt P Q (x ∷ xs) (suc i) = P x × SplitsAt P Q xs i

module _ {ℓ} {A : Type ℓ} where
  -- `xs[indices]`
  unfoldable pub take_at : List A → List ℕ → Result IndexError (List A)
  take_at xs [] = ok []
  take_at xs (i ∷ is) =
      let rest = take_at xs is in
      or_raise (get_elem? xs i) out_of_range >>= λ x. rest >>= λ ys. ok (x ∷ ys)

  -- `xs[i:j]`
  unfoldable pub slice : List A → ℕ → ℕ → List A
  slice xs i zero = []
  slice [] i (suc j) = []
  slice (x ∷ xs) zero (suc j) = x ∷ slice xs zero j
  slice (x ∷ xs) (suc i) (suc j) = slice xs i j

  -- `xs[i] = x`
  unfoldable pub set_at : List A → ℕ → A → Result IndexError (List A)
  set_at [] i x = err out_of_range
  set_at (y ∷ xs) zero x = ok (x ∷ xs)
  set_at (y ∷ xs) (suc i) x = set_at xs i x >>= λ ys. ok (y ∷ ys)

  -- an array of n times one value
  abbrev pub replicate : ℕ → A → List A
  replicate zero x = []
  replicate (suc n) x = x ∷ replicate n x

  pub get_elem?-replicate : (n : ℕ) (x : A) (i : ℕ) → i < n → get_elem? (replicate n x) i ≡ some x
  get_elem?-replicate zero x i h = absurd (omega arith)
  get_elem?-replicate (suc n) x zero h = refl
  get_elem?-replicate (suc n) x (suc i) h = get_elem?-replicate n x i (omega arith)

  pub length-replicate : (n : ℕ) (x : A) → length (replicate n x) ≡ n
  length-replicate zero x = refl
  length-replicate (suc n) x = omega (arith, length-replicate n x)

  pub get_elem?-some : (xs : List A) (i : ℕ) → i < length xs → (x : A) × (get_elem? xs i ≡ some x)
  get_elem?-some [] i h = absurd (omega arith)
  get_elem?-some (x ∷ xs) zero h = (x, refl)
  get_elem?-some (x ∷ xs) (suc i) h = get_elem?-some xs i (omega arith)

  -- Indices that are in range are all found.
  pub take_at-ok :
      (xs : List A) (is : List ℕ)
      → All (λ i. i < length xs) is
      → (ys : List A) × (take_at xs is ≡ ok ys) × (length ys ≡ length is)
  unfolding take_at
  take_at-ok xs [] h = ([], refl, refl)
  take_at-ok xs (i ∷ is) (h, hs) =
      let (x, e) = get_elem?-some xs i h in
      let (ys, e', l) = take_at-ok xs is hs in (x ∷ ys, rw (e, e') refl, omega (arith, l))

  get_elem?-All :
      (P : A → Type 0) (xs : List A) (i : ℕ) {x : A} → All P xs → get_elem? xs i ≡ some x → P x
  get_elem?-All P [] i h e = cc
  get_elem?-All P (y ∷ xs) zero (h, hs) e = subst P (cc e) h
  get_elem?-All P (y ∷ xs) (suc i) (h, hs) e = get_elem?-All P xs i hs e

  cons-ok :
      (o : Option A) (r : Result IndexError (List A)) {zs : List A}
      → (or_raise o out_of_range >>= λ x. r >>= λ ys. ok (x ∷ ys)) ≡ ok zs
      → (x : A) × (ys : List A) × (o ≡ some x) × (r ≡ ok ys) × (zs ≡ x ∷ ys)
  cons-ok none r e = cc
  cons-ok (some x) (err f) e = cc
  cons-ok (some x) (ok ys) e = (x, ys, refl, refl, cc)

  -- Where all indices are found, so are the first and the rest.
  pub take_at-cons :
      (xs : List A) (i : ℕ) (is : List ℕ) {zs : List A}
      → take_at xs (i ∷ is) ≡ ok zs
      → (x : A) × (ys : List A) × (get_elem? xs i ≡ some x)
        × (take_at xs is ≡ ok ys)
        × (zs ≡ x ∷ ys)
  unfolding take_at
  take_at-cons xs i is e = cons-ok (get_elem? xs i) (take_at xs is) e

  -- Items that are taken meet what all items meet.
  pub take_at-All :
      (P : A → Type 0) (xs : List A) (is : List ℕ) {ys : List A}
      → All P xs
      → take_at xs is ≡ ok ys
      → All P ys
  unfolding take_at
  take_at-All P xs [] h e = subst (All P) (ok-injective e) tt
  take_at-All P xs (i ∷ is) h e =
      let (x, zs, at, e', split) = take_at-cons xs i is e in
      subst (All P) (sym split) (get_elem?-All P xs i h at, take_at-All P xs is h e')

  -- What stands at j once the first item, or one in the rest, has been replaced.
  first_replaced :
      (x y : A) (xs : List A) (j : ℕ)
      → get_elem? (x ∷ xs) j ≡ (if j == 0 then some x else get_elem? (y ∷ xs) j)
  first_replaced x y xs zero = refl
  first_replaced x y xs (suc j) = ground arith

  rest_replaced :
      (x y : A) (xs ys : List A) (i j : ℕ)
      → ((k : ℕ) → get_elem? ys k ≡ (if k == i then some x else get_elem? xs k))
      → get_elem? (y ∷ ys) j ≡ (if j == suc i then some x else get_elem? (y ∷ xs) j)
  rest_replaced x y xs ys i zero at = ground arith
  rest_replaced x y xs ys i (suc j) at = ground (arith, at j)

  -- What an index assignment leaves.
  pub set_at-ok :
      (xs : List A) (i : ℕ) (x : A)
      → i < length xs
      → (ys : List A) × (set_at xs i x ≡ ok ys)
        × (length ys ≡ length xs)
        × ((j : ℕ) → get_elem? ys j ≡ (if j == i then some x else get_elem? xs j))
  unfolding set_at
  set_at-ok [] i x h = absurd (omega arith)
  set_at-ok (y ∷ xs) zero x h = (x ∷ xs, refl, refl, first_replaced x y xs)
  set_at-ok (y ∷ xs) (suc i) x h =
      let (ys, e, l, at) = set_at-ok xs i x (omega arith) in
      (y ∷ ys, rw e refl, omega (arith, l), λ j. rest_replaced x y xs ys i j at)

pub get_elem?-map {ℓ κ} :
    {A : Type ℓ} {B : Type κ} (f : A → B) (xs : List A) (i : ℕ) {x : A}
    → get_elem? xs i ≡ some x
    → get_elem? (map f xs) i ≡ some (f x)
get_elem?-map f [] i e = cc
get_elem?-map f (x ∷ xs) zero e = cc
get_elem?-map f (x ∷ xs) (suc i) e = get_elem?-map f xs i e

eq-of-== : (k j : ℕ) → (k == j) ≡ true → j ≡ k
eq-of-== k j e = ground arith

pub contains-All :
    (P : ℕ → Type 0) (ks : List ℕ) (k : ℕ) → All P ks → contains ◌==◌ k ks ≡ true → P k
contains-All P [] k h e = cc
contains-All P (j ∷ ks) k (h, hs) e = elim (Bool-cases (k == j)) [
  | inl same ↦ subst P (eq-of-== k j same) h
  | inr other ↦ contains-All P ks k hs (ground arith)
]

abbrev pub IsSorted : List ℕ → Type 0
IsSorted [] = Unit
IsSorted (k ∷ ks) = All (λ j. k ≤ j) ks × IsSorted ks

pub All-from : (i n : ℕ) → All (λ k. k < i + n) (from i n)
All-from i zero = tt
All-from i (suc n) =
    (omega arith, subst (λ b. All (λ k. k < b) (from (suc i) n)) (omega arith) (All-from (suc i) n))

pub All-below : (n m : ℕ) (ks : List ℕ) → n ≤ m → All (λ k. k < n) ks → All (λ k. k < m) ks
All-below n m [] le h = tt
All-below n m (k ∷ ks) le (h, hs) = (omega arith, All-below n m ks le hs)

-- What meets P is not changed by the order.
pub All-Permᴰ : (P : ℕ → Type 0) {is js : List ℕ} → Permᴰ is js → All P is → All P js
All-Permᴰ P Permᴰ.nil h = tt
All-Permᴰ P (Permᴰ.cons e p) (h, hs) = (subst P e h, All-Permᴰ P p hs)
All-Permᴰ P (Permᴰ.swap e e') (h, (h', hs)) = (subst P e' h', (subst P e h, hs))
All-Permᴰ P (Permᴰ.trans p q) h = All-Permᴰ P q (All-Permᴰ P p h)

found-All : (P : ℕ → Type 0) (js : List ℕ) → ((k : ℕ) → contains ◌==◌ k js ≡ true → P k) → All P js
found-All P [] f = tt
found-All P (j ∷ js) f =
    (f j (ground arith), found-All P js (λ k found. f k (ground (arith, found))))

-- Items that are all found in a list meet what its items meet.
pub All-of-contains :
    (P : ℕ → Type 0) (ks js : List ℕ)
    → All P ks
    → ((k : ℕ) → contains ◌==◌ k js ≡ contains ◌==◌ k ks)
    → All P js
All-of-contains P ks js h same =
    found-All P js (λ k found. contains-All P ks k h (sym (same k) ∙ found))
