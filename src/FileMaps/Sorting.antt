-- ===== src/FileMaps/Sorting.antt =====
-- `sorted(d.iteritems())` for a dict, whose keys differ.
use Prim.Native.String.{compare}
use text.Mathlib.Text.{is_lt}
use sims_utils.Base.{◌⊎◌, inl, inr, String, Bool, true, false, List, [], ◌∷◌, if◌then◌else◌}
use sims_utils.Base.Dict.{Dict}

unfoldable pub before : String × String → String × String → Bool
before (j, w) (k, v) = is_lt (compare j k)

unfoldable pub insert_sorted : String × String → Dict String String → Dict String String
unfolding before
insert_sorted p [] = p ∷ []
insert_sorted p (q ∷ ps) =
    let rest = insert_sorted p ps in if before q p then q ∷ rest else p ∷ q ∷ ps

unfoldable pub sorted : Dict String String → Dict String String
unfolding insert_sorted
sorted [] = []
sorted (p ∷ ps) = insert_sorted p (sorted ps)

module _ {A : Type 0} where
  abbrev pub All : (A → Type 0) → List A → Type 0
  All P [] = Unit
  All P (x ∷ xs) = P x × All P xs

  abbrev pub Any : (A → Type 0) → List A → Type 0
  Any P [] = ⊥
  Any P (x ∷ xs) = P x ⊎ Any P xs

module _ (P : String × String → Type 0) where
  insert_sorted-All :
      (p : String × String) (ps : Dict String String) → All P (insert_sorted p ps) → P p × All P ps
  unfolding insert_sorted
  insert_sorted-All p [] = λ h. h
  insert_sorted-All p (q ∷ ps) =
      elim (before q p)
        as (λ b.
          All P (if b then q ∷ insert_sorted p ps else p ∷ q ∷ ps) → P p × (P q × All P ps)) [
            | true ↦ λ h. let (hp, hs) = insert_sorted-All p ps h.1 in (hp, (h.0, hs))
            | false ↦ λ h. h
          ]

  -- What all sorted entries meet, all entries do.
  pub sorted-All : (ps : Dict String String) → All P (sorted ps) → All P ps
  unfolding sorted
  sorted-All [] h = tt
  sorted-All (p ∷ ps) h = let (hp, hs) = insert_sorted-All p (sorted ps) h in (hp, sorted-All ps hs)

  insert_sorted-Any :
      (p : String × String) (ps : Dict String String) → Any P (insert_sorted p ps) → P p ⊎ Any P ps
  unfolding insert_sorted
  insert_sorted-Any p [] = λ h. h
  insert_sorted-Any p (q ∷ ps) =
      elim (before q p)
        as (λ b.
          Any P (if b then q ∷ insert_sorted p ps else p ∷ q ∷ ps) → P p ⊎ (P q ⊎ Any P ps)) [
            | true ↦ λ h. elim h [
              | inl hq ↦ inr (inl hq)
              | inr hs ↦ elim (insert_sorted-Any p ps hs) [
                | inl hp ↦ inl hp
                | inr hs' ↦ inr (inr hs')
              ]
            ]
            | false ↦ λ h. h
          ]

  -- What some sorted entry meets, some entry does.
  pub sorted-Any : (ps : Dict String String) → Any P (sorted ps) → Any P ps
  unfolding sorted
  sorted-Any [] h = h
  sorted-Any (p ∷ ps) h = elim (insert_sorted-Any p (sorted ps) h) [
    | inl hp ↦ inl hp
    | inr hs ↦ inr (sorted-Any ps hs)
  ]
