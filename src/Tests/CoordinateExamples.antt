-- ===== src/Tests/CoordinateExamples.antt =====
-- The theorems about CoordinateTransformations.py, over an exact sky that is turned upside down.
use sims_utils.Base.{ℕ, Option, none, some, [], ◌∷◌, length, map}
use sims_utils.Base.Int.{pos, ◌-ℤ◌}
use sims_utils.Palpy.{Palpy}
use sims_utils.Coordinates.{calc_lmst_last}
use sims_utils.Coordinates.Sidereal.{Explains, calc_lmst_last-Explains}
use sims_utils.Tests.Sky.{Arr, arrays}

abbrev count : Arr → Option ℕ
count [] = some 0
count (x ∷ []) = none
count (x ∷ y ∷ xs) = some (length (x ∷ y ∷ xs))

abbrev turned : Arr → Arr
turned x = map (λ b. pos 0 -ℤ b) x

abbrev palpy : Palpy arrays
palpy = record {
  array_length = count;
  floor = λ x. x;
  greater = λ x y. x;
  where_ = λ c x y. x;
  eqgal = λ x y. (turned x, turned y);
  eqgal_vector = λ x y. (turned x, turned y);
  galeq = λ x y. (turned x, turned y);
  galeq_vector = λ x y. (turned x, turned y);
  eqeqx = λ x. x;
  eqeqx_vector = λ x. x;
  gmsta = λ x y. x;
  gmsta_vector = λ x y. x;
}

abbrev three : Arr
three = pos 1 ∷ pos 200 ∷ pos 3 ∷ []

calc_lmst_last-Explains_example :
    Explains arrays palpy (some 3) none (calc_lmst_last arrays palpy (pos 9 ∷ []) three)
calc_lmst_last-Explains_example = calc_lmst_last-Explains arrays palpy (pos 9 ∷ []) three
