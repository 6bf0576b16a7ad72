-- ===== src/Arrays.antt =====
-- numpy's arrays of numbers, of one dimension, as lists, and the arguments that may be an array.
use sims_utils.Base.{
  suc, ◌≡◌, refl, ap, Bool, false, Option, none, some, List, [], ◌∷◌, map, arith, length,
  if◌then◌else◌, ◌==◌, true,
}

-- An argument: a number, an array, or a Python list.
pub data Value {ℓ} (A : Type ℓ) : Type ℓ where
  number : A → Value A
  array : List A → Value A
  sequence : List A → Value A

pub length-map : {A B : Type 0} (f : A → B) (xs : List A) → length (map f xs) ≡ length xs
length-map f [] = refl
length-map f (x ∷ xs) = ap suc (length-map f xs)

module _ {A B C : Type 0} (f : A → B → C) where
  abbrev pub zip_with : List A → List B → List C
  zip_with [] ys = []
  zip_with (x ∷ xs) [] = []
  zip_with (x ∷ xs) (y ∷ ys) = f x y ∷ zip_with xs ys

  -- An operation between two arrays: item by item where they have one length, with the only item
  -- of an array of one, and `none` where numpy raises a `ValueError`.
  unfoldable pub broadcast : List A → List B → Option (List C)
  broadcast (x ∷ []) ys = some (map (f x) ys)
  broadcast [] (y ∷ []) = some []
  broadcast (x ∷ x' ∷ xs) (y ∷ []) = some (map (λ a. f a y) (x ∷ x' ∷ xs))
  broadcast xs ys = if length xs == length ys then some (zip_with xs ys) else none

  pub zip_with-map :
      {S : Type 0} (g : S → A) (h : S → B) (ss : List S)
      → zip_with (map g ss) (map h ss) ≡ map (λ s. f (g s) (h s)) ss
  zip_with-map g h [] = refl
  zip_with-map g h (s ∷ ss) = ap (λ xs. f (g s) (h s) ∷ xs) (zip_with-map g h ss)

-- Columns of one table are combined row by row.
pub broadcast-map :
    {A B C S : Type 0} (f : A → B → C) (g : S → A) (h : S → B) (ss : List S)
    → broadcast f (map g ss) (map h ss) ≡ some (map (λ s. f (g s) (h s)) ss)
unfolding broadcast
broadcast-map f g h [] = ground arith
broadcast-map f g h (s ∷ []) = refl
broadcast-map f g h (s ∷ s' ∷ ss) =
    ground (arith, length-map g ss, length-map h ss, zip_with-map f g h ss)

abbrev pub pair_columns {ℓ} : {A B : Type ℓ} → List (A × B) → List A × List B
pair_columns ps = (map (λ p. p.0) ps, map (λ p. p.1) ps)

pub map-map :
    {A B C : Type 0} (f : B → C) (g : A → B) (xs : List A)
    → map f (map g xs) ≡ map (λ x. f (g x)) xs
map-map f g [] = refl
map-map f g (x ∷ xs) = ap (λ ys. f (g x) ∷ ys) (map-map f g xs)

pub map_id : {A : Type 0} (xs : List A) → map (λ x. x) xs ≡ xs
map_id [] = refl
map_id (x ∷ xs) = ap (λ ys. x ∷ ys) (map_id xs)

-- Two columns of one table have one length.
pub same_length :
    {A B S : Type 0} (f : S → A) (g : S → B) (ss : List S)
    → (length (map f ss) == length (map g ss)) ≡ true
same_length f g ss = ground (arith, length-map f ss, length-map g ss)

-- A function of numpy of one argument; a Python list becomes an array.
unfoldable pub apply_to {ℓ} : {A : Type ℓ} → (A → A) → Value A → Value A
apply_to f (number x) = number (f x)
apply_to f (array xs) = array (map f xs)
apply_to f (sequence xs) = array (map f xs)

-- An operator between a number and a number or an array; a Python list has none.
unfoldable pub scaled {ℓ} : {A : Type ℓ} → (A → A) → Value A → Option (Value A)
scaled f (number x) = some (number (f x))
scaled f (array xs) = some (array (map f xs))
scaled f (sequence xs) = none

-- An operator between numbers and arrays.
unfoldable pub combine : {A : Type 0} → (A → A → A) → Value A → Value A → Option (Value A)
unfolding broadcast
combine f (number x) (number y) = some (number (f x y))
combine f (number x) (array ys) = some (array (map (f x) ys))
combine f (array xs) (number y) = some (array (map (λ x. f x y) xs))
combine f (array xs) (array ys) = elim (broadcast f xs ys) [
  | some zs ↦ some (array zs)
  | none ↦ none
]
combine f _ _ = none

abbrev pub is_list : {A : Type 0} → Value A → Bool
is_list (sequence xs) = true
is_list (number x) = false
is_list (array xs) = false

-- What a compiled function that takes a float makes of an argument.
abbrev pub as_number : {A : Type 0} → Value A → Option A
as_number (number x) = some x
as_number (array (x ∷ [])) = some x
as_number (array []) = none
as_number (array (x ∷ y ∷ xs)) = none
as_number (sequence xs) = none

-- What a function of arrays makes of an argument.
abbrev pub items : {A : Type 0} → Value A → Option (List A)
items (number x) = none
items (array xs) = some xs
items (sequence xs) = some xs

pub combine-map :
    {A S : Type 0} (f : A → A → A) (g h : S → A) (ss : List S)
    → combine f (array (map g ss)) (array (map h ss)) ≡ some (array (map (λ s. f (g s) (h s)) ss))
unfolding combine
combine-map f g h ss =
    ap (λ o. elim o [ some zs ↦ some (array zs) | none ↦ none ]) (broadcast-map f g h ss)
