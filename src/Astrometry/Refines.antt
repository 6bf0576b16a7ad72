-- ===== src/Astrometry/Refines.antt =====
-- The functions of AstrometryUtils.py do to each row of their arrays what Points does to a point,
-- at the date that was given and not at what a cache holds.
use sims_utils.Base.{◌≡◌, ap, ◌∙◌, false, Bool, Option, none, some, List, map, String}
use sims_utils.Base.Result.{ok, or_raise}
use sims_utils.Base.Action.{>>=-ok, ◌>>=◌}
use sims_utils.Numpy.{Numpy}
use sims_utils.Arrays.{broadcast-map, map-map, same_length, pair_columns}
use sims_utils.Astropy.{Astropy}
use sims_utils.Palpy.Places.{Places, Star, IsElementwise}
use sims_utils.Mjd.{ModifiedJulianDate, tdb, utc, dut1, read}
use sims_utils.Mjd.Reads.{Given, scale_of, IsCoherent, read_lem}
use sims_utils.Site.{Site}
use sims_utils.Observation.State.{ObservationMetaData}
use sims_utils.Astrometry.Actions.{palpy_raised, or_else}
use sims_utils.Astrometry.Apparent.{
  Columns, arcsec, app_geo_from_icrs_radians, icrs_from_app_geo_radians,
}
use sims_utils.Astrometry.Observed.{
  Observing, observes, places_in, observed_from_app_geo_radians, app_geo_from_observed_radians,
  calculate_observatory_parameters, alt_az,
}
use sims_utils.Astrometry.Points.{
  at_date, Place, apparent_place, mean_place, observed_place, unobserved_place, parameters,
  IsColumn, or_zeros-IsColumn,
}

module _ (N : Numpy) (A : Astropy N) (P : Places N) where
  open N use {Object, literal, div, cos}

  module _ (law : IsElementwise N P) where
    -- The stars as palpy takes them.
    abbrev corrected : Star N → Star N
    corrected s = record s { pm_ra = div s.pm_ra (cos s.dec); parallax = arcsec N A P s.parallax }

    mapqk_corrected :
        (stars : List (Star N)) (prms : List Object)
        → P.mapqk_vector
            (map (λ s. s.ra) stars)
            (map (λ s. s.dec) stars)
            (map (λ s. div s.pm_ra (cos s.dec)) stars)
            (map (λ s. s.pm_dec) stars)
            (map (λ s. arcsec N A P s.parallax) stars)
            (map (λ s. s.v_rad) stars)
            prms
          ≡ some (
              pair_columns (
                map
                  (λ s.
                    P.mapqk s.ra s.dec
                      (div s.pm_ra (cos s.dec))
                      s.pm_dec
                      (arcsec N A P s.parallax)
                      s.v_rad
                      prms)
                  stars))
    mapqk_corrected stars prms =
        rw
          (
            map-map (λ (s : Star N). s.ra) corrected stars,
            map-map (λ (s : Star N). s.dec) corrected stars,
            map-map (λ (s : Star N). s.pm_ra) corrected stars,
            map-map (λ (s : Star N). s.pm_dec) corrected stars,
            map-map (λ (s : Star N). s.parallax) corrected stars,
            map-map (λ (s : Star N). s.v_rad) corrected stars,
            map-map (λ (s : Star N). P.mapqk s.ra s.dec s.pm_ra s.pm_dec s.parallax s.v_rad prms)
                corrected stars,
          )
          at (law.mapqk_each (map corrected stars) prms)

    pub app_geo_from_icrs-eq :
        (g : Given N A) (m : ModifiedJulianDate N A) (stars : List (Star N))
        (pm_ra pm_dec parallax v_rad : Option (List Object)) (year : Object)
        → IsCoherent N A g m
        → IsColumn N A P (λ s. s.pm_ra) stars pm_ra
        → IsColumn N A P (λ s. s.pm_dec) stars pm_dec
        → IsColumn N A P (λ s. s.parallax) stars parallax
        → IsColumn N A P (λ s. s.v_rad) stars v_rad
        → (m' : ModifiedJulianDate N A) × (app_geo_from_icrs_radians N A P
              (map (λ s. s.ra) stars)
              (map (λ s. s.dec) stars)
              pm_ra
              pm_dec
              parallax
              v_rad
              year
              (some m)
            ≡ (ok (pair_columns (map (apparent_place N A P year g) stars)), some m'))
          × IsCoherent N A g m'
    unfolding app_geo_from_icrs_radians apparent_place
    app_geo_from_icrs-eq g m stars pm_ra pm_dec parallax v_rad year h a b c d =
        let (e, h') = read_lem N A g tdb m h in
        (
          (read N A tdb m).1,
          simp (
            same_length (λ (s : Star N). s.ra) (λ (s : Star N). s.dec) stars,
            e,
            or_zeros-IsColumn N A P (λ s. s.pm_ra) (λ s. s.ra) stars pm_ra a,
            or_zeros-IsColumn N A P (λ s. s.pm_dec) (λ s. s.ra) stars pm_dec b,
            or_zeros-IsColumn N A P (λ s. s.parallax) (λ s. s.ra) stars parallax c,
            or_zeros-IsColumn N A P (λ s. s.v_rad) (λ s. s.ra) stars v_rad d,
            map-map cos (λ (s : Star N). s.dec) stars,
            broadcast-map div (λ (s : Star N). s.pm_ra) (λ s. cos s.dec) stars,
            map-map (arcsec N A P) (λ (s : Star N). s.parallax) stars,
            mapqk_corrected stars (P.mappa year (scale_of N A g tdb)),
          ),
          h',
        )

    pub icrs_from_app_geo-eq :
        (g : Given N A) (m : ModifiedJulianDate N A) (ps : List (Place N A P)) (year : Object)
        → IsCoherent N A g m
        → (m' : ModifiedJulianDate N A) × (icrs_from_app_geo_radians N A P
              (map (λ p. p.0) ps)
              (map (λ p. p.1) ps)
              year
              (some m)
            ≡ (ok (pair_columns (map (mean_place N A P year g) ps)), some m'))
          × IsCoherent N A g m'
    unfolding icrs_from_app_geo_radians mean_place
    icrs_from_app_geo-eq g m ps year h =
        let (e, h') = read_lem N A g tdb m h in
        ((read N A tdb m).1, simp (e, law.ampqk_each ps (P.mappa year (scale_of N A g tdb))), h')

    calculate-eq :
        (g : Given N A) (o : ObservationMetaData N A) (m : ModifiedJulianDate N A) {s : Site N}
        (include_refraction : Bool) {prms : List Object}
        → IsCoherent N A g m
        → o.site ≡ some s
        → parameters N A P include_refraction s g ≡ some prms
        → (m' : ModifiedJulianDate N A) × (calculate_observatory_parameters N A P
              (literal "0.5")
              include_refraction
              (at_date N A P o m)
            ≡ (ok prms, at_date N A P o m'))
          × IsCoherent N A g m'
    unfolding calculate_observatory_parameters parameters
    calculate-eq g o m {s} include_refraction {prms} h site computed =
        let (e, h') = read_lem N A g utc m h in
        let (e', h'') = read_lem N A g dut1 (read N A utc m).1 h' in
        ((read N A dut1 (read N A utc m).1).1, simp (site, e, e', computed), h'')

    observes-eq :
        (name : String) (o : ObservationMetaData N A) (m : ModifiedJulianDate N A) {s : Site N}
        (ps : List (Place N A P))
        → o.site ≡ some s
        → observes N A P name (map (λ p. p.0) ps) (map (λ p. p.1) ps) (at_date N A P o m)
          ≡ (ok tt, at_date N A P o m)
    unfolding observes
    observes-eq name o m ps site = simp (site, same_length (λ (p : Place N A P). p.0) (λ p. p.1) ps)

    places_in-eq :
        (o : ObservationMetaData N A) (ps : List (Place N A P)) (prms : List Object)
        → places_in N A P (map (λ p. p.0) ps) (map (λ p. p.1) ps) false prms o
          ≡ (ok (pair_columns (map (observed_place N A P prms) ps), none), o)
    unfolding places_in alt_az observed_place
    places_in-eq o ps prms = simp (
      law.aopqk_each ps prms,
      map-map (λ (p : Place N A P). p.0) (observed_place N A P prms) ps,
      map-map (λ (p : Place N A P). p.1) (observed_place N A P prms) ps,
    )

    pub observed_from_app_geo-eq :
        (g : Given N A) (o : ObservationMetaData N A) (m : ModifiedJulianDate N A) {s : Site N}
        (ps : List (Place N A P)) (include_refraction : Bool) {prms : List Object}
        → IsCoherent N A g m
        → o.site ≡ some s
        → parameters N A P include_refraction s g ≡ some prms
        → (m' : ModifiedJulianDate N A) × (observed_from_app_geo_radians N A P
              (map (λ p. p.0) ps)
              (map (λ p. p.1) ps)
              include_refraction
              false
              (literal "0.5")
              (some (at_date N A P o m))
            ≡ (
              ok (pair_columns (map (observed_place N A P prms) ps), none),
              some (at_date N A P o m'),
            ))
          × IsCoherent N A g m'
    unfolding observed_from_app_geo_radians
    observed_from_app_geo-eq g o m ps include_refraction {prms} h site computed =
        let (m', e, h') = calculate-eq g o m include_refraction h site computed in
        let calculate = calculate_observatory_parameters N A P (literal "0.5") include_refraction in
        let places = places_in N A P (map (λ p. p.0) ps) (map (λ p. p.1) ps) false in
        (
          m',
          ap (λ p. (p.0, some p.1))
              (>>=-ok (observes N A P "observedFromAppGeo" (map (λ p. p.0) ps) (map (λ p. p.1) ps))
                  (λ _. calculate >>= places) (at_date N A P o m)
                  (observes-eq "observedFromAppGeo" o m ps site)
                ∙ >>=-ok calculate places (at_date N A P o m) e
                ∙ places_in-eq (at_date N A P o m') ps prms),
          h',
        )

    pub app_geo_from_observed-eq :
        (g : Given N A) (o : ObservationMetaData N A) (m : ModifiedJulianDate N A) {s : Site N}
        (ps : List (Place N A P)) (include_refraction : Bool) {prms : List Object}
        → IsCoherent N A g m
        → o.site ≡ some s
        → parameters N A P include_refraction s g ≡ some prms
        → (m' : ModifiedJulianDate N A) × (app_geo_from_observed_radians N A P
              (map (λ p. p.0) ps)
              (map (λ p. p.1) ps)
              include_refraction
              (literal "0.5")
              (some (at_date N A P o m))
            ≡ (ok (pair_columns (map (unobserved_place N A P prms) ps)), some (at_date N A P o m')))
          × IsCoherent N A g m'
    unfolding app_geo_from_observed_radians unobserved_place
    app_geo_from_observed-eq g o m ps include_refraction {prms} h site computed =
        let (m', e, h') = calculate-eq g o m include_refraction h site computed in
        let calculate = calculate_observatory_parameters N A P (literal "0.5") include_refraction in
        let places : List Object → Observing N A P (Columns N A P) = λ prms.
          or_else palpy_raised (P.oapqk_vector "r" (map (λ p. p.0) ps) (map (λ p. p.1) ps) prms) in
        (
          m',
          ap (λ p. (p.0, some p.1))
              (>>=-ok (observes N A P "appGeoFromObserved" (map (λ p. p.0) ps) (map (λ p. p.1) ps))
                  (λ _. calculate >>= places) (at_date N A P o m)
                  (observes-eq "appGeoFromObserved" o m ps site)
                ∙ >>=-ok calculate places (at_date N A P o m) e
                ∙ ap (λ r. (or_raise r palpy_raised, at_date N A P o m')) (law.oapqk_each ps prms)),
          h',
        )
