-- ===== src/Base/Dict.antt =====
-- A Python dict as an association list, over the key test `same`.
use mathlib.Core.Path.{◌≡◌, refl}
use mathlib.Core.Bool.{Bool, true, false, ◌||◌}
use mathlib.Core.Option.{Option, none, some}
use mathlib.Core.List.{List, [], ◌∷◌}
use native.Mathlib.Omega.{arith}
use text.Mathlib.Text.{◌==◌ as str_eq}
use text.Mathlib.TextEquality.{eq_iff as str_eq_iff}
use sims_utils.Base.Tests.{if◌then◌else◌}

abbrev pub Dict {ℓ κ} : Type ℓ → Type κ → Type (ℓ ⊔ κ)
Dict K V = List (K × V)

-- The test that a hash table makes of two keys is an equivalence.
pub record IsKeyTest {ℓ} {K : Type ℓ} (same : K → K → Bool) : Type ℓ where
  pub same_refl : (a : K) → same a a ≡ true
  pub same_sym : (a b : K) → same a b ≡ true → same b a ≡ true
  pub same_trans : (a b c : K) → same a b ≡ true → same b c ≡ true → same a c ≡ true

-- Texts as keys
pub str_eq-IsKeyTest : IsKeyTest str_eq
str_eq-IsKeyTest = record {
  same_refl = λ a. (str_eq_iff a a).1 refl;
  same_sym = λ a b h. ground (arith, str_eq_iff a b, str_eq_iff b a);
  same_trans = λ a b c h k. ground (arith, str_eq_iff a b, str_eq_iff b c, str_eq_iff a c);
}

-- `k in keys`
module _ {ℓ} {K : Type ℓ} (same : K → K → Bool) where
  abbrev pub contains : K → List K → Bool
  contains k [] = false
  contains k (j ∷ ks) = same k j || contains k ks

module _ {ℓ κ} {K : Type ℓ} {V : Type κ} (same : K → K → Bool) where
  abbrev pub lookup : K → Dict K V → Option V
  lookup k [] = none
  lookup k ((j, v) ∷ d) = if same k j then some v else lookup k d

  -- `d[k] = v`
  abbrev pub insert : K → V → Dict K V → Dict K V
  insert k v [] = (k, v) ∷ []
  insert k v ((j, w) ∷ d) = if same k j then (j, v) ∷ d else (j, w) ∷ insert k v d

  pub lookup-insert :
      (keyed : IsKeyTest same) (k j : K) (v : V) (d : Dict K V)
      → lookup j (insert k v d) ≡ (if same j k then some v else lookup j d)
  lookup-insert keyed k j v [] = refl
  lookup-insert keyed k j v ((i, w) ∷ d) = ground (
    arith,
    keyed.same_trans j k i,
    keyed.same_trans j i k,
    keyed.same_trans k j i,
    keyed.same_sym k i,
    keyed.same_sym j k,
    lookup-insert keyed k j v d,
  )
