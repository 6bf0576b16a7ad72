-- ===== src/Healpix/Grouping.antt =====
-- The values of one pixel: in any order of the points, and as a slice of the sorted arrays.
use sims_utils.Base.{
  ℕ, zero, suc, ◌≤◌, ◌<◌, ◌≡◌, ◌↔◌, refl, sym, subst, false, Option, some, none, List, [], ◌∷◌,
  arith, length, get_elem?, if◌then◌else◌, ◌==◌,
}
use sims_utils.Base.Dict.{contains}
use sims_utils.Base.Result.{ok}
use sims_utils.Healpix.Arrays.{from, take_at, take_at-cons, slice, SplitsAt}
use mathlib.Core.List.{Permᴰ}
use mathlib.Core.List.Permᴰ

-- The values of the points that are in pixel p.
unfoldable pub values_in : {A : Type 0} → ℕ → List ℕ → List A → List A
values_in p [] vs = []
values_in p (k ∷ ks) [] = []
values_in p (k ∷ ks) (v ∷ vs) = let rest = values_in p ks vs in if k == p then v ∷ rest else rest

module _ {A : Type 0} where
  -- The value of a point, if the point is in pixel p.
  abbrev chosen : ℕ → Option ℕ → Option A → Option A
  chosen p none v = none
  chosen p (some k) none = none
  chosen p (some k) (some v) = if k == p then some v else none

  abbrev put : Option A → List A → List A
  put none xs = xs
  put (some v) xs = v ∷ xs

  abbrev picked : ℕ → List ℕ → List A → List ℕ → List A
  picked p ks vs [] = []
  picked p ks vs (i ∷ is) = put (chosen p (get_elem? ks i) (get_elem? vs i)) (picked p ks vs is)

  put-Permᴰ : (v : Option A) {xs ys : List A} → Permᴰ xs ys → Permᴰ (put v xs) (put v ys)
  put-Permᴰ none h = h
  put-Permᴰ (some v) h = Permᴰ.cons refl h

  put-swap : (v w : Option A) (xs : List A) → Permᴰ (put v (put w xs)) (put w (put v xs))
  put-swap none w xs = Permᴰ.refl (put w xs)
  put-swap (some v) none xs = Permᴰ.refl (v ∷ xs)
  put-swap (some v) (some w) xs = Permᴰ.swap refl refl

  -- The order of the indices only changes the order of the values.
  picked-Permᴰ :
      (p : ℕ) (ks : List ℕ) (vs : List A) {is js : List ℕ}
      → Permᴰ is js
      → Permᴰ (picked p ks vs is) (picked p ks vs js)
  picked-Permᴰ p ks vs Permᴰ.nil = Permᴰ.nil
  picked-Permᴰ p ks vs (Permᴰ.cons {a = a} {l₁ = is} {l₂ = js} e h) =
      subst (λ b. Permᴰ (picked p ks vs (a ∷ is)) (picked p ks vs (b ∷ js))) e
        (put-Permᴰ (chosen p (get_elem? ks a) (get_elem? vs a)) (picked-Permᴰ p ks vs h))
  picked-Permᴰ p ks vs (Permᴰ.swap {a = a} {b = b} {a' = b'} {b' = a'} {l = is} e e') =
      subst (λ c. Permᴰ (picked p ks vs (a ∷ b ∷ is)) (picked p ks vs (c ∷ a' ∷ is))) e'
        (subst (λ c. Permᴰ (picked p ks vs (a ∷ b ∷ is)) (picked p ks vs (b ∷ c ∷ is))) e
          (put-swap (chosen p (get_elem? ks a) (get_elem? vs a))
            (chosen p (get_elem? ks b) (get_elem? vs b)) (picked p ks vs is)))
  picked-Permᴰ p ks vs (Permᴰ.trans h k) =
      Permᴰ.trans (picked-Permᴰ p ks vs h) (picked-Permᴰ p ks vs k)

  values_in-take_at :
      (p : ℕ) (ks : List ℕ) (vs : List A) (is : List ℕ) {ks' : List ℕ} {vs' : List A}
      → take_at ks is ≡ ok ks'
      → take_at vs is ≡ ok vs'
      → values_in p ks' vs' ≡ picked p ks vs is
  unfolding take_at values_in
  values_in-take_at p ks vs [] e e' = cc
  values_in-take_at p ks vs (i ∷ is) e e' =
      let (k, ks'', at, rest, split) = take_at-cons ks i is e in
      let (v, vs'', at', rest', split') = take_at-cons vs i is e' in
      rw (split, split', at, at') (ground (arith, values_in-take_at p ks vs is rest rest'))

  picked-tail :
      (p k : ℕ) (v : A) (ks : List ℕ) (vs : List A) (i n : ℕ)
      → picked p (k ∷ ks) (v ∷ vs) (from (suc i) n) ≡ picked p ks vs (from i n)
  picked-tail p k v ks vs i zero = refl
  picked-tail p k v ks vs i (suc n) = rw (picked-tail p k v ks vs (suc i) n) refl

  picked-nil : (p : ℕ) (ks : List ℕ) (i n : ℕ) → picked p ks [] (from i n) ≡ []
  picked-nil p ks i zero = refl
  picked-nil p ks i (suc n) = ground (arith, picked-nil p ks (suc i) n)

  picked-from :
      (p : ℕ) (ks : List ℕ) (vs : List A) → picked p ks vs (from 0 (length ks)) ≡ values_in p ks vs
  unfolding values_in
  picked-from p [] vs = refl
  picked-from p (k ∷ ks) [] = picked-nil p (k ∷ ks) 0 (length (k ∷ ks))
  picked-from p (k ∷ ks) (v ∷ vs) =
      ground (arith, picked-tail p k v ks vs 0 (length ks), picked-from p ks vs)

  -- Between the two ends of p stand the values of p.
  pub slice-eq-values_in :
      (p : ℕ) (ks : List ℕ) (vs : List A) (i j : ℕ)
      → SplitsAt (λ k. k < p) (λ k. p ≤ k) ks i
      → SplitsAt (λ k. k ≤ p) (λ k. p < k) ks j
      → length ks ≡ length vs
      → slice vs i j ≡ values_in p ks vs
  unfolding slice values_in
  slice-eq-values_in p [] [] i zero l r e = refl
  slice-eq-values_in p [] [] i (suc j) l r e = refl
  slice-eq-values_in p [] (v ∷ vs) i j l r e = absurd (omega arith)
  slice-eq-values_in p (k ∷ ks) [] i j l r e = absurd (omega arith)
  slice-eq-values_in p (k ∷ ks) (v ∷ vs) zero zero l r e =
      ground (arith, slice-eq-values_in p ks vs zero zero l.1 r.1 (omega arith))
  slice-eq-values_in p (k ∷ ks) (v ∷ vs) zero (suc j) l r e =
      ground (arith, slice-eq-values_in p ks vs zero j l.1 r.1 (omega arith))
  slice-eq-values_in p (k ∷ ks) (v ∷ vs) (suc i) zero l r e = absurd (omega arith)
  slice-eq-values_in p (k ∷ ks) (v ∷ vs) (suc i) (suc j) l r e =
      ground (arith, slice-eq-values_in p ks vs i j l.1 r.1 (omega arith))

  -- Two arrays taken in one order of all indices have the same values of p, in some order.
  pub values_in-Permᴰ :
      (p : ℕ) (ks : List ℕ) (vs : List A) (is : List ℕ) {ks' : List ℕ} {vs' : List A}
      → Permᴰ is (from 0 (length ks))
      → take_at ks is ≡ ok ks'
      → take_at vs is ≡ ok vs'
      → Permᴰ (values_in p ks' vs') (values_in p ks vs)
  values_in-Permᴰ p ks vs is h e e' =
      subst (λ xs. Permᴰ xs (values_in p ks vs)) (sym (values_in-take_at p ks vs is e e'))
        (subst (Permᴰ (picked p ks vs is)) (picked-from p ks vs) (picked-Permᴰ p ks vs h))

  -- A pixel that is listed has a value, and one that is not has none.
  pub contains-values_in :
      (p : ℕ) (ks : List ℕ) (vs : List A)
      → length ks ≡ length vs
      → (values_in p ks vs ≡ []) ↔ (contains ◌==◌ p ks ≡ false)
  unfolding values_in
  contains-values_in p [] vs e = (λ _. refl, λ _. refl)
  contains-values_in p (k ∷ ks) [] e = absurd (omega arith)
  contains-values_in p (k ∷ ks) (v ∷ vs) e =
      ground (arith, contains-values_in p ks vs (omega arith))
