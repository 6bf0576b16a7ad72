-- ===== src/Astrometry/Rest.antt =====
-- What observedFromICRS gives of places without motion.
use sims_utils.Base.{◌≡◌, refl, Bool, none, some, List, [], ◌∷◌, map}
use sims_utils.Base.Result.{ok}
use sims_utils.Healpix.Arrays.{All}
use sims_utils.Numpy.{Numpy}
use sims_utils.Arrays.{map-map, pair_columns}
use sims_utils.Astropy.{Astropy}
use sims_utils.Palpy.Places.{Places, Star, IsElementwise}
use sims_utils.Mjd.{ModifiedJulianDate}
use sims_utils.Mjd.Reads.{Given, IsCoherent}
use sims_utils.Site.{Site}
use sims_utils.Observation.State.{ObservationMetaData}
use sims_utils.Astrometry.Observed.{observed_from_icrs_radians}
use sims_utils.Astrometry.Points.{Place, apparent_place, observed_place, parameters, at_date}
use sims_utils.Astrometry.Chain.{observed_from_icrs-eq}

module _ (N : Numpy) (A : Astropy N) (P : Places N) where
  open N use {Object, literal, div, cos}

  abbrev zero : Object
  zero = literal "0.0"

  unfoldable pub at_rest : Place N A P → Star N
  at_rest p = record {
    ra = p.0;
    dec = p.1;
    pm_ra = zero;
    pm_dec = zero;
    parallax = zero;
    v_rad = zero;
  }

  no_motion :
      (f : Star N → Object) (ps : List (Place N A P))
      → ((p : Place N A P) → f (at_rest p) ≡ zero)
      → All (λ s. f s ≡ zero) (map at_rest ps)
  no_motion f [] h = tt
  no_motion f (p ∷ ps) h = (h p, no_motion f ps h)

  -- Places without motion, with no columns for it.
  pub observed_at_rest-eq :
      IsElementwise N P
      → (year : Object) (g : Given N A) {prms : List Object} (o : ObservationMetaData N A)
        (m : ModifiedJulianDate N A) {s : Site N} (ps : List (Place N A P))
        (include_refraction : Bool)
      → IsCoherent N A g m
      → o.site ≡ some s
      → parameters N A P include_refraction s g ≡ some prms
      → (m' : ModifiedJulianDate N A) × (observed_from_icrs_radians N A P
            (map (λ p. p.0) ps)
            (map (λ p. p.1) ps)
            none
            none
            none
            none
            (some year)
            include_refraction
            (some (at_date N A P o m))
          ≡ (
            ok (
                pair_columns (
                  map
                    (λ p. observed_place N A P prms (apparent_place N A P year g (at_rest p)))
                    ps)),
            some (at_date N A P o m'),
          ))
        × IsCoherent N A g m'
  unfolding at_rest
  observed_at_rest-eq law year g {prms} o m ps include_refraction h site computed =
      let (m', e, h') =
        observed_from_icrs-eq N A P law g o m (map at_rest ps) none none none none year
          include_refraction h site computed (no_motion (λ s. s.pm_ra) ps λ _. refl)
          (no_motion (λ s. s.pm_dec) ps λ _. refl) (no_motion (λ s. s.parallax) ps λ _. refl)
          (no_motion (λ s. s.v_rad) ps λ _. refl) in
      (
        m',
        rw
            (
              map-map (λ (s : Star N). s.ra) at_rest ps,
              map-map (λ (s : Star N). s.dec) at_rest ps,
              map-map (λ s. observed_place N A P prms (apparent_place N A P year g s)) at_rest ps,
            )
            at e,
        h',
      )
