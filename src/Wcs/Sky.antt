-- ===== src/Wcs/Sky.antt =====
-- Native positions of places of the sky, for the pointing of an observation.
use sims_utils.Base.{◌≡◌, ap, ◌∙◌, true, some, List, [], ◌∷◌, map}
use sims_utils.Base.Result.{ok, or_raise}
use sims_utils.Base.Action.{◌>>=◌, evaluate, pure, >>=-ok}
use sims_utils.Numpy.{Numpy}
use sims_utils.Arrays.{map-map, pair_columns}
use sims_utils.Astropy.{Astropy}
use sims_utils.Palpy.Places.{Places, IsElementwise}
use sims_utils.Mjd.{ModifiedJulianDate}
use sims_utils.Mjd.Reads.{Given, IsCoherent}
use sims_utils.Site.{Site}
use sims_utils.Observation.State.{ObservationMetaData}
use sims_utils.Astrometry.Actions.{
  no_obs_metadata, no_array, bad_shapes, or_else, unless_none, on_some,
}
use sims_utils.Astrometry.Apparent.{Columns, in_degrees}
use sims_utils.Astrometry.Observed.{Observing, Maybe, icrs_from_observed_radians}
use sims_utils.Astrometry.Points.{Place, parameters, at_date}
use sims_utils.FocalPlane.Projection.{observed_in_2000, observed_pointing, first}
use sims_utils.FocalPlane.Points.{seen, observed_in_2000-eq, observed_pointing-eq}
use sims_utils.Wcs.{
  to_native, native_of, native_lon_lat_arrays, native_lon_lat, lon_lat_arrays, lon_lat,
}
use sims_utils.Wcs.Each.{KeepsNumbers, direction, native_lon_lat_each}

module _ (N : Numpy) (A : Astropy N) (P : Places N) where
  open N use {Object, literal, radians, degrees}

  -- The observed pointing; an array of `None` is refused.
  unfoldable pub pointing_of : Observing N A P (Object × Object)
  unfolding observed_pointing
  pointing_of = do
    ra ← evaluate (λ o. or_raise o.pointing_ra no_array)
    dec ← evaluate (λ o. or_raise o.pointing_dec no_array)
    observed_pointing N A P ra dec

  -- The native positions of observed places
  unfoldable pub native_about_pointing : Columns N A P → Observing N A P (Columns N A P)
  unfolding pointing_of native_lon_lat_arrays
  native_about_pointing places = do
    pointing ← pointing_of
    evaluate (λ _. native_lon_lat_arrays N places.0 places.1 pointing.0 pointing.1)

  -- `_nativeLonLatFromRaDec` of arrays, in radians
  unfoldable pub native_from_ra_dec_arrays : List Object → List Object → Maybe N A P (Columns N A P)
  unfolding observed_in_2000 native_about_pointing
  native_from_ra_dec_arrays ra dec =
      unless_none (no_obs_metadata "observedFromICRS")
        (do places ← observed_in_2000 N A P ra dec; native_about_pointing places)

  -- of numbers, which become arrays of one item
  unfoldable pub native_from_ra_dec : Object → Object → Maybe N A P (Object × Object)
  unfolding observed_pointing pointing_of native_lon_lat
  native_from_ra_dec ra dec = unless_none (no_obs_metadata "observedFromICRS") (do
    place ← observed_pointing N A P ra dec
    pointing ← pointing_of
    evaluate (λ _. native_lon_lat N place.0 place.1 pointing.0 pointing.1))

  -- in degrees
  unfoldable pub native_from_ra_dec_degrees :
      List Object → List Object → Maybe N A P (Columns N A P)
  unfolding native_from_ra_dec_arrays
  native_from_ra_dec_degrees ra dec = do
    output ← native_from_ra_dec_arrays (map radians ra) (map radians dec)
    pure (in_degrees N A P output)

  -- `_icrsFromObserved` as the file calls it
  abbrev to_icrs : List Object → List Object → Observing N A P (Columns N A P)
  to_icrs ra dec = on_some (icrs_from_observed_radians N A P ra dec (some (literal "2000.0")) true)

  -- `_raDecFromNativeLonLat` of arrays, in radians
  unfoldable pub ra_dec_from_native_arrays : List Object → List Object → Maybe N A P (Columns N A P)
  unfolding pointing_of lon_lat_arrays icrs_from_observed_radians
  ra_dec_from_native_arrays lon lat = unless_none (no_obs_metadata "observedFromICRS") (do
    pointing ← pointing_of
    places ← evaluate (λ _. lon_lat_arrays N lon lat pointing.0 pointing.1)
    to_icrs places.0 places.1)

  -- of numbers
  unfoldable pub ra_dec_from_native : Object → Object → Maybe N A P (Object × Object)
  unfolding pointing_of lon_lat icrs_from_observed_radians first
  ra_dec_from_native lon lat = unless_none (no_obs_metadata "observedFromICRS") (do
    pointing ← pointing_of
    let place = lon_lat N lon lat pointing.0 pointing.1
    output ← to_icrs (place.0 ∷ []) (place.1 ∷ [])
    ra ← or_else bad_shapes (first N A P output.0)
    dec ← or_else bad_shapes (first N A P output.1)
    pure (ra, dec))

  -- in degrees
  unfoldable pub ra_dec_from_native_degrees :
      List Object → List Object → Maybe N A P (Columns N A P)
  unfolding ra_dec_from_native_arrays
  ra_dec_from_native_degrees lon lat = do
    output ← ra_dec_from_native_arrays (map radians lon) (map radians lat)
    pure (in_degrees N A P output)

  module _ (law : IsElementwise N P) (keeps : KeepsNumbers N) (g : Given N A) (prms : List Object)
      (o : ObservationMetaData N A) (s : Site N) (pointing : Place N A P) (site : o.site ≡ some s)
      (computed : parameters N A P true s g ≡ some prms)
      (pointed_ra : o.pointing_ra ≡ some pointing.0)
      (pointed_dec : o.pointing_dec ≡ some pointing.1) where
    pointing_of-eq :
        (m : ModifiedJulianDate N A)
        → IsCoherent N A g m
        → (m' : ModifiedJulianDate N A) × (pointing_of (at_date N A P o m)
            ≡ (ok (seen N A P prms g pointing), at_date N A P o m'))
          × IsCoherent N A g m'
    unfolding pointing_of
    pointing_of-eq m h =
        let (m', e, h') = observed_pointing-eq N A P law g prms o s site computed m pointing h in
        let o' = at_date N A P o m in
        let dec : Observing N A P Object = evaluate (λ o. or_raise o.pointing_dec no_array) in
        (
          m',
          >>=-ok (evaluate (λ o. or_raise o.pointing_ra no_array))
                (λ ra. dec >>= observed_pointing N A P ra) o'
                (ap (λ x. (or_raise x no_array, o')) pointed_ra)
              ∙ >>=-ok dec (observed_pointing N A P pointing.0) o'
                  (ap (λ x. (or_raise x no_array, o')) pointed_dec)
              ∙ e,
          h',
        )

    -- Of the columns of a list of places, with an observation that has a site, a date and a
    -- pointing, and parameters that palpy computes, `_nativeLonLatFromRaDec` gives place by place
    -- the native position, about the pointing as it is seen, of the place as it is seen, whatever
    -- the date's cache holds. It leaves the observation as it was but for that cache, which still
    -- holds the date's own scales.
    pub native_from_ra_dec-eq :
        (m : ModifiedJulianDate N A) (ps : List (Place N A P))
        → IsCoherent N A g m
        → let tangent = seen N A P prms g pointing in
          (m' : ModifiedJulianDate N A) × (native_from_ra_dec_arrays
              (map (λ p. p.0) ps)
              (map (λ p. p.1) ps)
              (some (at_date N A P o m))
            ≡ (
              ok (
                  pair_columns (
                    map
                      (λ p.
                        native_of N
                          (to_native N tangent.0 tangent.1 (direction N (seen N A P prms g p))))
                      ps)),
              some (at_date N A P o m'),
            ))
          × IsCoherent N A g m'
    unfolding native_from_ra_dec_arrays native_about_pointing
    native_from_ra_dec-eq m ps h =
        let (m', e, h') = observed_in_2000-eq N A P law g prms o s site computed m ps h in
        let (m'', e', h'') = pointing_of-eq m' h' in
        let tangent = seen N A P prms g pointing in
        let places = map (seen N A P prms g) ps in
        let turn : Object × Object → Observing N A P (Columns N A P) = λ at. evaluate (λ _.
          native_lon_lat_arrays N (map (λ p. p.0) places) (map (λ p. p.1) places) at.0 at.1) in
        (
          m'',
          ap (λ p. (p.0, some p.1))
              (>>=-ok (observed_in_2000 N A P (map (λ p. p.0) ps) (map (λ p. p.1) ps))
                  native_about_pointing (at_date N A P o m) e
                ∙ >>=-ok pointing_of turn (at_date N A P o m') e'
                ∙ ap (λ r. (r, at_date N A P o m''))
                    (native_lon_lat_each N keeps tangent.0 tangent.1 places tangent).0
                ∙ ap (λ qs. (ok (pair_columns qs), at_date N A P o m''))
                    (map-map (λ q. native_of N (to_native N tangent.0 tangent.1 (direction N q)))
                      (seen N A P prms g) ps)),
          h'',
        )
