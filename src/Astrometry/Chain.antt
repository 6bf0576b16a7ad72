-- ===== src/Astrometry/Chain.antt =====
-- observedFromICRS and icrsFromObserved, arrays and mutable dates and all, are maps over the points.
use sims_utils.Base.{◌≡◌, ap, ◌∙◌, false, Bool, Option, some, List, map, String}
use sims_utils.Base.Result.{ok}
use sims_utils.Base.Action.{>>=-ok, ◌>>=◌, pure}
use sims_utils.Numpy.{Numpy}
use sims_utils.Arrays.{map-map, same_length, pair_columns}
use sims_utils.Astropy.{Astropy}
use sims_utils.Palpy.Places.{Places, Star, IsElementwise}
use sims_utils.Mjd.{ModifiedJulianDate}
use sims_utils.Mjd.Reads.{Given, IsCoherent}
use sims_utils.Site.{Site}
use sims_utils.Observation.State.{ObservationMetaData}
use sims_utils.Astrometry.Apparent.{Columns, app_geo_from_icrs_radians, icrs_from_app_geo_radians}
use sims_utils.Astrometry.Observed.{
  Observing, observed_from_app_geo_radians, app_geo_from_observed_radians,
  observed_from_icrs_radians, icrs_from_observed_radians,
}
use sims_utils.Astrometry.Points.{
  at_date, Place, apparent_place, mean_place, observed_place, unobserved_place, parameters,
  IsColumn,
}
use sims_utils.Astrometry.Refines.{
  app_geo_from_icrs-eq, icrs_from_app_geo-eq, observed_from_app_geo-eq, app_geo_from_observed-eq,
}
use sims_utils.Astrometry.Actions.{on_mjd, on_some, kept}
use sims_utils.Astrometry.Observed.{epoch_for, observed_next}

module _ (N : Numpy) (A : Astropy N) (P : Places N) where
  open N use {Object, literal, div, cos}

  epoch_for-eq :
      {S : Type 0} (name : String) (o : ObservationMetaData N A) (m : ModifiedJulianDate N A)
      (year : Object) (f g : S → Object) (ss : List S)
      → epoch_for N A P name (some year) (map f ss) (map g ss) (at_date N A P o m)
        ≡ (ok year, at_date N A P o m)
  unfolding epoch_for
  epoch_for-eq name o m year f g ss = simp (same_length f g ss)

  module _ (law : IsElementwise N P) where
    observed_next-eq :
        (g : Given N A) (o : ObservationMetaData N A) (m : ModifiedJulianDate N A) {s : Site N}
        (ps : List (Place N A P)) (include_refraction : Bool) {prms : List Object}
        → IsCoherent N A g m
        → o.site ≡ some s
        → parameters N A P include_refraction s g ≡ some prms
        → (m' : ModifiedJulianDate N A) × (observed_next N A P include_refraction
              (pair_columns ps)
              (at_date N A P o m)
            ≡ (ok (pair_columns (map (observed_place N A P prms) ps)), at_date N A P o m'))
          × IsCoherent N A g m'
    unfolding observed_next
    observed_next-eq g o m ps include_refraction h site computed =
        let (m', e, h') =
          observed_from_app_geo-eq N A P law g o m ps include_refraction h site computed in
        (
          m',
          >>=-ok
              (on_some (
                observed_from_app_geo_radians N A P (map (λ p. p.0) ps) (map (λ p. p.1) ps)
                  include_refraction false (literal "0.5")))
              (λ observed. pure observed.0) (at_date N A P o m)
              (ap (λ p. (p.0, kept (at_date N A P o m) p.1)) e),
          h',
        )

    -- Of the columns of a list of stars (a column of motions may be left out where it is zero for all),
    -- with an epoch, an observation that has a site and a date, and parameters that palpy computes for
    -- that site at that date, `_observedFromICRS` gives star by star the observed place of the
    -- apparent place, each at the date that was given, whatever the date's cache holds. It leaves
    -- the observation as it was but for that cache, which still holds the date's own scales.
    pub observed_from_icrs-eq :
        (g : Given N A) (o : ObservationMetaData N A) (m : ModifiedJulianDate N A) {s : Site N}
        (stars : List (Star N)) (pm_ra pm_dec parallax v_rad : Option (List Object)) (year : Object)
        (include_refraction : Bool) {prms : List Object}
        → IsCoherent N A g m
        → o.site ≡ some s
        → parameters N A P include_refraction s g ≡ some prms
        → IsColumn N A P (λ s. s.pm_ra) stars pm_ra
        → IsColumn N A P (λ s. s.pm_dec) stars pm_dec
        → IsColumn N A P (λ s. s.parallax) stars parallax
        → IsColumn N A P (λ s. s.v_rad) stars v_rad
        → (m' : ModifiedJulianDate N A) × (observed_from_icrs_radians N A P
              (map (λ s. s.ra) stars)
              (map (λ s. s.dec) stars)
              pm_ra
              pm_dec
              parallax
              v_rad
              (some year)
              include_refraction
              (some (at_date N A P o m))
            ≡ (
              ok (
                  pair_columns
                    (map (λ s. observed_place N A P prms (apparent_place N A P year g s)) stars)),
              some (at_date N A P o m'),
            ))
          × IsCoherent N A g m'
    unfolding observed_from_icrs_radians
    observed_from_icrs-eq g o m stars pm_ra pm_dec parallax v_rad year include_refraction {prms} h
          site computed a b c d =
        let (m', e, h') =
          app_geo_from_icrs-eq N A P law g m stars pm_ra pm_dec parallax v_rad year h a b c d in
        let (m'', e', h'') =
          observed_next-eq g o m' (map (apparent_place N A P year g) stars) include_refraction h'
            site computed in
        let apparent : Object → Observing N A P (Columns N A P) = λ epoch. on_mjd N A (
          app_geo_from_icrs_radians N A P (map (λ s. s.ra) stars) (map (λ s. s.dec) stars) pm_ra
            pm_dec parallax v_rad epoch) in
        let next = observed_next N A P include_refraction in
        (
          m'',
          ap (λ p. (p.0, some p.1))
              (>>=-ok
                  (epoch_for N A P "observedFromICRS" (some year) (map (λ s. s.ra) stars)
                    (map (λ s. s.dec) stars))
                  (λ epoch. apparent epoch >>= next) (at_date N A P o m)
                  (epoch_for-eq "observedFromICRS" o m year (λ (s : Star N). s.ra) (λ s. s.dec)
                    stars)
                ∙ >>=-ok (apparent year) next (at_date N A P o m)
                    (ap (λ p. (p.0, record o { mjd = p.1 })) e)
                ∙ e'
                ∙ ap (λ ps. (ok (pair_columns ps), at_date N A P o m''))
                    (map-map (observed_place N A P prms) (apparent_place N A P year g) stars)),
          h'',
        )

    -- Of the columns of a list of observed places, under the same conditions, `_icrsFromObserved` gives
    -- place by place the mean place of the apparent place that palpy finds for it, whatever the
    -- date's cache holds, and leaves the observation as it was but for that cache, which still
    -- holds the date's own scales.
    pub icrs_from_observed-eq :
        (g : Given N A) (o : ObservationMetaData N A) (m : ModifiedJulianDate N A) {s : Site N}
        (ps : List (Place N A P)) (year : Object) (include_refraction : Bool) {prms : List Object}
        → IsCoherent N A g m
        → o.site ≡ some s
        → parameters N A P include_refraction s g ≡ some prms
        → (m' : ModifiedJulianDate N A) × (icrs_from_observed_radians N A P
              (map (λ p. p.0) ps)
              (map (λ p. p.1) ps)
              (some year)
              include_refraction
              (some (at_date N A P o m))
            ≡ (
              ok (
                  pair_columns
                    (map (λ p. mean_place N A P year g (unobserved_place N A P prms p)) ps)),
              some (at_date N A P o m'),
            ))
          × IsCoherent N A g m'
    unfolding icrs_from_observed_radians
    icrs_from_observed-eq g o m ps year include_refraction {prms} h site computed =
        let (m', e, h') =
          app_geo_from_observed-eq N A P law g o m ps include_refraction h site computed in
        let (m'', e', h'') =
          icrs_from_app_geo-eq N A P law g m' (map (unobserved_place N A P prms) ps) year h' in
        let apparent : Observing N A P (Columns N A P) = on_some (
          app_geo_from_observed_radians N A P (map (λ p. p.0) ps) (map (λ p. p.1) ps)
            include_refraction (literal "0.5")) in
        let next : Object → Columns N A P → Observing N A P (Columns N A P) =
          λ epoch places. on_mjd N A (icrs_from_app_geo_radians N A P places.0 places.1 epoch) in
        (
          m'',
          ap (λ p. (p.0, some p.1))
              (>>=-ok
                  (epoch_for N A P "icrsFromObserved" (some year) (map (λ p. p.0) ps)
                    (map (λ p. p.1) ps))
                  (λ epoch. apparent >>= next epoch) (at_date N A P o m)
                  (epoch_for-eq "icrsFromObserved" o m year (λ (p : Place N A P). p.0) (λ p. p.1)
                    ps)
                ∙ >>=-ok apparent (next year) (at_date N A P o m)
                    (ap (λ p. (p.0, kept (at_date N A P o m) p.1)) e)
                ∙ ap (λ p. (p.0, record o { mjd = p.1 })) e'
                ∙ ap (λ qs. (ok (pair_columns qs), at_date N A P o m''))
                    (map-map (mean_place N A P year g) (unobserved_place N A P prms) ps)),
          h'',
        )
