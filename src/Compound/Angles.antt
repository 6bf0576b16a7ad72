-- ===== src/Compound/Angles.antt =====
-- The arguments of CompoundCoordinateTransformations.py: a number or a numpy array, which is what
-- the docstrings let a caller pass. A Python list is none of these.
use sims_utils.Base.{
  ℕ, ◌≡◌, refl, ap, String, Bool, true, false, not, ◌&&◌, Option, none, some, List, map, length,
  ◌==◌,
}
use sims_utils.Base.Action.{Action, ◌>>◌, raise_when}
use sims_utils.Base.Result.{ok}
use sims_utils.Arrays.{broadcast, broadcast-map, map-map, same_length}
use sims_utils.Astrometry.Actions.{AstrometryError, only_one, lengths_differ}

pub data Angles (A : Type 0) : Type 0 where
  single : A → Angles A
  column : List A → Angles A

-- `isinstance(x, np.ndarray)`
abbrev pub is_column : {A : Type 0} → Angles A → Bool
is_column (single x) = false
is_column (column xs) = true

-- `len(x)` of an array
abbrev pub size : {A : Type 0} → Angles A → ℕ
size (single x) = 0
size (column xs) = length xs

-- A function of numpy of one argument, and an operator between a number and an argument.
unfoldable pub each : {A B : Type 0} → (A → B) → Angles A → Angles B
each f (single x) = single (f x)
each f (column xs) = column (map f xs)

module _ {A : Type 0} where
  -- An operator between two arguments; `none` where the lengths of two arrays do not fit.
  unfoldable pub between : (A → A → A) → Angles A → Angles A → Option (Angles A)
  between f (single x) (single y) = some (single (f x y))
  between f (single x) (column ys) = some (column (map (f x) ys))
  between f (column xs) (single y) = some (column (map (λ x. f x y) xs))
  between f (column xs) (column ys) = elim (broadcast f xs ys) [
    | some zs ↦ some (column zs)
    | none ↦ none
  ]

  -- The three tests at the head of `_altAzPaFromRaDec` and of `_raDecFromAltAz`, with the names of
  -- the function and of its two arguments.
  unfoldable pub one_kind :
      {S : Type 0} → String → String → String → Angles A → Angles A → Action S AstrometryError Unit
  one_kind name first second x y = do
    raise_when (λ _. is_column x && not (is_column y)) (only_one name second)
    raise_when (λ _. is_column y && not (is_column x)) (only_one name first)
    raise_when (λ _. is_column x && is_column y && not (size x == size y)) (lengths_differ name)

pub each-each :
    {A B C : Type 0} (f : B → C) (g : A → B) (xs : Angles A)
    → each f (each g xs) ≡ each (λ x. f (g x)) xs
unfolding each
each-each f g (single x) = refl
each-each f g (column xs) = ap column (map-map f g xs)

-- Arguments that are the parts of one number or of the rows of one table are combined row by row.
pub between-each :
    {A S : Type 0} (f : A → A → A) (g h : S → A) (ss : Angles S)
    → between f (each g ss) (each h ss) ≡ some (each (λ s. f (g s) (h s)) ss)
unfolding between each
between-each f g h (single s) = refl
between-each f g h (column ss) =
    ap (λ o. elim o [ some zs ↦ some (column zs) | none ↦ none ]) (broadcast-map f g h ss)

pub one_kind-each :
    {A S T : Type 0} (name first second : String) (g h : S → A) (ss : Angles S) (t : T)
    → one_kind name first second (each g ss) (each h ss) t ≡ (ok tt, t)
unfolding one_kind each
one_kind-each name first second g h (single s) t = refl
one_kind-each name first second g h (column ss) t = simp (same_length g h ss)
