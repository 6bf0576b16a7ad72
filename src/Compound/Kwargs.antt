-- ===== src/Compound/Kwargs.antt =====
-- The entries of a dict that `update` and `makeObservationMetadata` have gone over.
use sims_utils.Base.{◌≡◌, refl, ap, ◌∙◌, String, some, none, str_eq, [], ◌∷◌, inl, inr, Bool-cases}
use sims_utils.Base.Dict.{Dict, lookup, insert, lookup-insert, str_eq-IsKeyTest}
use sims_utils.Compound.Params.{update, make_observation_metadata}

module _ {ℓ} {V : Type ℓ} where
  -- `kwargs` without a key leave its entry.
  pub lookup-update :
      (k : String) (kwargs d : Dict String V)
      → lookup str_eq k kwargs ≡ none
      → lookup str_eq k (update kwargs d) ≡ lookup str_eq k d
  lookup-update k [] d missing = refl
  lookup-update k ((j, v) ∷ kwargs) d missing = elim (Bool-cases (str_eq k j)) [
    | inl e ↦ cc (rw e at missing)
    | inr e ↦
        lookup-update k kwargs (insert str_eq j v d) (rw e at missing)
        ∙ lookup-insert str_eq str_eq-IsKeyTest j k v d
        ∙ rw e refl
  ]

pub lookup-make :
    {V D : Type 0} (dtype : V → D) (k : String) (d : Dict String V) {v : V}
    → lookup str_eq k d ≡ some v
    → lookup str_eq k (make_observation_metadata dtype d) ≡ some (v, dtype v)
unfolding make_observation_metadata
lookup-make dtype k [] e = cc e
lookup-make dtype k ((j, w) ∷ d) e = elim (Bool-cases (str_eq k j)) [
  | inl same ↦
      rw same (ap (λ o. elim o [ some x ↦ some (x, dtype x) | none ↦ none ]) (rw same at e))
  | inr other ↦ rw other (lookup-make dtype k d (rw other at e))
]
