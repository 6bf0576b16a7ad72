-- ===== src/Coordinates/Units.antt =====
-- Arcseconds, there and back.
use sims_utils.Base.{◌≡◌, refl, ap, ◌∙◌, Option, none, some}
use sims_utils.Numpy.{Numpy}
use sims_utils.Coordinates.{
  arcsec_from_radians, radians_from_arcsec, arcsec_from_degrees, degrees_from_arcsec,
}

module _ (N : Numpy) where
  open N use {Object, literal, mul, div, radians, degrees}

  -- Where 3600 x / 3600 = x and the two units of angle undo each other, the conversions to
  -- arcseconds are undone by those from arcseconds, None included.
  pub arcsec_round_trip :
      ((x : Object) → div (mul (literal "3600.0") x) (literal "3600.0") ≡ x)
      → ((x : Object) → radians (degrees x) ≡ x)
      → (x : Option Object)
      → (degrees_from_arcsec N (arcsec_from_degrees N x) ≡ x)
        × (radians_from_arcsec N (arcsec_from_radians N x) ≡ x)
  unfolding arcsec_from_radians radians_from_arcsec arcsec_from_degrees degrees_from_arcsec
  arcsec_round_trip exact redo none = (refl, refl)
  arcsec_round_trip exact redo (some x) =
      (ap some (exact x), ap (λ y. some (radians y)) (exact (degrees x)) ∙ ap some (redo x))
