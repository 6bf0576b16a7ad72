-- ===== src/Tests/PlaceExamples.antt =====
-- The theorems about places at a concrete observation of a sky of binary digits.
use sims_utils.Base.{◌≡◌, refl, Bool, true, false, none, some, List, [], ◌∷◌, map}
use sims_utils.Base.Result.{ok}
use sims_utils.Arrays.{pair_columns}
use sims_utils.Palpy.Places.{Star}
use sims_utils.Mjd.{ModifiedJulianDate, from_utc}
use sims_utils.Mjd.Reads.{IsCoherent, scale_of, utc_of}
use sims_utils.Astrometry.Observed.{
  observed_from_icrs_radians, icrs_from_observed_radians, site_parameters,
}
use sims_utils.Astrometry.Points.{
  apparent_place, observed_place, mean_place, unobserved_place, parameters, at_date,
}
use sims_utils.Astrometry.Chain.{observed_from_icrs-eq, icrs_from_observed-eq}
use sims_utils.FocalPlane.Projection.{
  pupil_coords_from_ra_dec_radians, ra_dec_from_pupil_coords_radians,
}
use sims_utils.FocalPlane.Points.{pupil_point, sky_point}
use sims_utils.FocalPlane.Pupil.{pupil_coords-eq}
use sims_utils.FocalPlane.Sky.{ra_dec-eq}
use sims_utils.FocalPlane.Back.{reprojected, pupil_and_back, pupil_and_back-eq}
use sims_utils.Tests.Binary.{
  digit, clock, sphere, digit-IsExact, sphere-IsElementwise, place, visit, night, night-IsCoherent,
}

abbrev pub Date : Type 0
Date = ModifiedJulianDate digit clock

abbrev pub start : Date
start = from_utc digit clock true

abbrev pub stars : List (Star digit)
stars =
    record { ra = true; dec = false; pm_ra = true; pm_dec = false; parallax = false; v_rad = false }
    ∷ record {
      ra = false;
      dec = true;
      pm_ra = false;
      pm_dec = false;
      parallax = true;
      v_rad = false;
    }
    ∷ []

abbrev pub places : List (Bool × Bool)
places = (true, false) ∷ (false, false) ∷ []

-- The second of these is refused.
abbrev far_places : List (Bool × Bool)
far_places = (true, false) ∷ (true, true) ∷ []

abbrev pub prms : List Bool
prms = true ∷ []

pub computed : parameters digit clock sphere true place night ≡ some prms
unfolding parameters site_parameters scale_of utc_of
computed = refl

abbrev pub Leaves : {X : Type 0} → (Date → X) → X → Type 0
Leaves f x = (m : Date) × (x ≡ f m) × IsCoherent digit clock night m

observed_from_icrs-eq_example :
    Leaves
      (λ m. (
        ok (
            pair_columns (
              map
                (λ s.
                  observed_place digit clock sphere prms
                    (apparent_place digit clock sphere false night s))
                stars)),
        some (at_date digit clock sphere visit m),
      ))
      (observed_from_icrs_radians digit clock sphere
        (map (λ s. s.ra) stars)
        (map (λ s. s.dec) stars)
        (some (true ∷ false ∷ []))
        none
        (some (false ∷ true ∷ []))
        none
        (some false)
        true
        (some (at_date digit clock sphere visit start)))
observed_from_icrs-eq_example =
    observed_from_icrs-eq digit clock sphere sphere-IsElementwise night visit start stars
      (some (true ∷ false ∷ [])) none (some (false ∷ true ∷ [])) none false true night-IsCoherent
      refl computed refl (refl, (refl, tt)) refl (refl, (refl, tt))

icrs_from_observed-eq_example :
    Leaves
      (λ m. (
        ok (
            pair_columns (
              map
                (λ p.
                  mean_place digit clock sphere false night
                    (unobserved_place digit clock sphere prms p))
                places)),
        some (at_date digit clock sphere visit m),
      ))
      (icrs_from_observed_radians digit clock sphere
        (map (λ p. p.0) places)
        (map (λ p. p.1) places)
        (some false)
        true
        (some (at_date digit clock sphere visit start)))
icrs_from_observed-eq_example =
    icrs_from_observed-eq digit clock sphere sphere-IsElementwise night visit start places false
      true night-IsCoherent refl computed

pupil_coords-eq_example :
    Leaves
      (λ m. (
        ok (
            pair_columns
              (map (pupil_point digit clock sphere prms night true (true, false)) far_places)),
        some (at_date digit clock sphere visit m),
      ))
      (pupil_coords_from_ra_dec_radians digit clock sphere
        (map (λ p. p.0) far_places)
        (map (λ p. p.1) far_places)
        (some false)
        (some (at_date digit clock sphere visit start)))
pupil_coords-eq_example =
    pupil_coords-eq digit clock sphere sphere-IsElementwise night prms visit place refl computed
      start true (true, false) far_places false night-IsCoherent refl refl refl

ra_dec-eq_example :
    Leaves
      (λ m. (
        ok (pair_columns (map (sky_point digit clock sphere prms night true (true, false)) places)),
        some (at_date digit clock sphere visit m),
      ))
      (ra_dec_from_pupil_coords_radians digit clock sphere
        (map (λ p. p.0) places)
        (map (λ p. p.1) places)
        (some false)
        (some (at_date digit clock sphere visit start)))
ra_dec-eq_example =
    ra_dec-eq digit clock sphere sphere-IsElementwise night prms visit place refl computed start
      true (true, false) places false night-IsCoherent refl refl refl

pupil_and_back-eq_example :
    (m : Date) × (pupil_and_back digit clock sphere
        (map (λ p. p.0) far_places)
        (map (λ p. p.1) far_places)
        false
        (some (at_date digit clock sphere visit start))
      ≡ (
        ok (
            pair_columns
              (map (reprojected digit clock sphere night prms (true, false)) far_places)),
        some (at_date digit clock sphere visit m),
      ))
pupil_and_back-eq_example =
    pupil_and_back-eq digit clock sphere digit-IsExact night prms true (true, false)
      sphere-IsElementwise visit start far_places false night-IsCoherent refl computed refl refl
      refl
