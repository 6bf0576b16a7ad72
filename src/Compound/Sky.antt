-- ===== src/Compound/Sky.antt =====
-- What `_raDecFromAltAz` computes, of numbers and of arrays.
use sims_utils.Base.{◌≡◌, ap, ◌∙◌, Bool, true, Option, some, map, [], ◌∷◌}
use sims_utils.Base.Action.{>>=-ok, ◌>>=◌, pure, evaluate}
use sims_utils.Base.Result.{Result, ok}
use sims_utils.Numpy.{Numpy}
use sims_utils.Arrays.{map-map}
use sims_utils.Astropy.{Astropy}
use sims_utils.Palpy.{Palpy}
use sims_utils.Palpy.Places.{Places, IsElementwise}
use sims_utils.Mjd.{ModifiedJulianDate}
use sims_utils.Mjd.Reads.{Given, IsCoherent}
use sims_utils.Observation.State.{ObservationMetaData}
use sims_utils.Astrometry.Actions.{
  AstrometryError, unless_none, no_attribute, no_number, or_else, on_some, bad_shapes, kept,
}
use sims_utils.Astrometry.Observed.{Observing, the_site, icrs_from_observed_radians}
use sims_utils.Astrometry.Points.{Place, at_date, mean_place, unobserved_place}
use sims_utils.Astrometry.Chain.{icrs_from_observed-eq}
use sims_utils.FocalPlane.Projection.{first}
use sims_utils.Compound.Angles.{
  Angles, single, column, is_column, each, each-each, one_kind, one_kind-each,
}
use sims_utils.Compound.Triangle.{observed_at}
use sims_utils.Compound.Solved.{triangle_point, observed_at-eq}
use sims_utils.Compound.Horizon.{
  Pair, local_apparent_time, icrs_in_2000, sky_above, ra_dec_from_alt_az_radians,
}
use sims_utils.Compound.Vantage.{Vantage, local_apparent_time-eq, the_site-eq}

module _ (N : Numpy) (A : Astropy N) (P : Places N) (Q : Palpy N) (g : Given N A)
    (o : ObservationMetaData N A) (at : Vantage N A P Q g o) where
  open N use {Object, literal}

  -- The mean place of an altitude and azimuth
  unfoldable pub sky_above_point : Bool → Place N A P → Place N A P
  sky_above_point in_array p =
      mean_place N A P (literal "2000.0") g
        (unobserved_place N A P at.prms (triangle_point N in_array at.last at.latitude p))

module _ (N : Numpy) (A : Astropy N) (P : Places N) (Q : Palpy N) (law : IsElementwise N P)
    (g : Given N A) (o : ObservationMetaData N A) (at : Vantage N A P Q g o) where
  open N use {Object, literal}

  abbrev mean_at : Place N A P → Place N A P
  mean_at p = mean_place N A P (literal "2000.0") g (unobserved_place N A P at.prms p)

  icrs_in_2000-eq :
      (m : ModifiedJulianDate N A) (ps : Angles (Place N A P))
      → IsCoherent N A g m
      → (m' : ModifiedJulianDate N A) × (icrs_in_2000 N A P Q
            (each (λ p. p.0) ps)
            (each (λ p. p.1) ps)
            (at_date N A P o m)
          ≡ (ok (each (λ p. (mean_at p).0) ps, each (λ p. (mean_at p).1) ps), at_date N A P o m'))
        × IsCoherent N A g m'
  unfolding icrs_in_2000 each first
  icrs_in_2000-eq m (single p) h =
      let (m', e, h') =
        icrs_from_observed-eq N A P law g o m (p ∷ []) (literal "2000.0") true h at.has_site
          at.computed in
      (
        m',
        >>=-ok
            (on_some (
              icrs_from_observed_radians N A P (p.0 ∷ []) (p.1 ∷ []) (some (literal "2000.0"))
                true))
            (λ c. do
              mean_ra ← or_else bad_shapes (first N A P c.0)
              mean_dec ← or_else bad_shapes (first N A P c.1)
              pure (single mean_ra, single mean_dec))
            (at_date N A P o m) (ap (λ q. (q.0, kept (at_date N A P o m) q.1)) e),
        h',
      )
  icrs_in_2000-eq m (column ps) h =
      let (m', e, h') =
        icrs_from_observed-eq N A P law g o m ps (literal "2000.0") true h at.has_site
          at.computed in
      (
        m',
        >>=-ok
              (on_some (
                icrs_from_observed_radians N A P (map (λ p. p.0) ps) (map (λ p. p.1) ps)
                  (some (literal "2000.0")) true))
              (λ c. pure (column c.0, column c.1)) (at_date N A P o m)
              (ap (λ q. (q.0, kept (at_date N A P o m) q.1)) e)
            ∙ simp (
              map-map (λ (p : Place N A P). p.0) mean_at ps,
              map-map (λ (p : Place N A P). p.1) mean_at ps,
            ),
        h',
      )

  sky_above-eq :
      (m : ModifiedJulianDate N A) (ps : Angles (Place N A P))
      → IsCoherent N A g m
      → (m' : ModifiedJulianDate N A) × (sky_above N A P Q
            (each (λ p. p.0) ps)
            (each (λ p. p.1) ps)
            (at_date N A P o m)
          ≡ (
            ok (
              each (λ p. (sky_above_point N A P Q g o at (is_column ps) p).0) ps,
              each (λ p. (sky_above_point N A P Q g o at (is_column ps) p).1) ps,
            ),
            at_date N A P o m',
          ))
        × IsCoherent N A g m'
  unfolding sky_above sky_above_point
  sky_above-eq m ps h =
      let (m', e, h') = local_apparent_time-eq N A P Q g o at m h in
      let alt : Angles Object = each (λ p. p.0) ps in
      let az : Angles Object = each (λ p. p.1) ps in
      let point = triangle_point N (is_column ps) at.last at.latitude in
      let (m'', e', h'') = icrs_in_2000-eq m' (each point ps) h' in
      let place : Result AstrometryError (Pair N A P Q) → Observing N A P (Pair N A P Q) =
        λ r. evaluate (λ _. r) >>= λ observed. icrs_in_2000 N A P Q observed.0 observed.1 in
      let above : Object → Object → Observing N A P (Pair N A P Q) =
        λ last latitude. place (observed_at N last latitude alt az) in
      let at_latitude : Object → Option Object → Observing N A P (Pair N A P Q) =
        λ last l. or_else no_number l >>= above last in
      let of_site : Object → Observing N A P (Pair N A P Q) =
        λ last. the_site N A P >>= λ s. at_latitude last s.latitude_rad in
      (
        m'',
        >>=-ok (local_apparent_time N A P Q) of_site (at_date N A P o m) e
            ∙ >>=-ok (the_site N A P) (λ s. at_latitude at.last s.latitude_rad) (at_date N A P o m')
                (the_site-eq N A P Q g o at m')
            ∙ ap (λ l. at_latitude at.last l (at_date N A P o m')) at.has_latitude
            ∙ ap (λ r. place r (at_date N A P o m')) (observed_at-eq N at.last at.latitude ps)
            ∙ (simp each-each at e'),
        h'',
      )

  -- Of two numbers or of two columns, of an observation whose site is there with its longitude and
  -- latitude, and whose parameters and sidereal times palpy computes, `_raDecFromAltAz` gives for
  -- each altitude and azimuth the mean place, for the epoch 2000 and at the date that was given, of
  -- an observed place: its Dec is the arcsine of sin(lat) sin(alt) + cos(lat) cos(alt) cos(az), and
  -- its RA is the local apparent sidereal time less the arccosine of
  -- (sin(alt) - sin(dec) sin(lat)) / (cos(dec) cos(lat)), which counts with -1.0 where the sine of
  -- the azimuth is not below 0. Where the arccosine is NaN, a number has 0 for it where the sign of
  -- the quotient is above 0 and else pi, and an item of an array 0.5 pi (1.0 - sign). The
  -- observation is left as it was but for what the date keeps, which is still its own scales.
  pub ra_dec_from_alt_az-eq :
      (m : ModifiedJulianDate N A) (ps : Angles (Place N A P))
      → IsCoherent N A g m
      → (m' : ModifiedJulianDate N A) × (ra_dec_from_alt_az_radians N A P Q
            (each (λ p. p.0) ps)
            (each (λ p. p.1) ps)
            (some (at_date N A P o m))
          ≡ (
            ok (
              each (λ p. (sky_above_point N A P Q g o at (is_column ps) p).0) ps,
              each (λ p. (sky_above_point N A P Q g o at (is_column ps) p).1) ps,
            ),
            some (at_date N A P o m'),
          ))
        × IsCoherent N A g m'
  unfolding ra_dec_from_alt_az_radians
  ra_dec_from_alt_az-eq m ps h =
      let (m', e, h') = sky_above-eq m ps h in
      let alt : Angles Object = each (λ p. p.0) ps in
      let az : Angles Object = each (λ p. p.1) ps in
      (
        m',
        >>=-ok (one_kind "raDecFromAltAz" "alt" "az" alt az)
              (λ _. unless_none no_attribute (sky_above N A P Q alt az)) (some (at_date N A P o m))
              (one_kind-each "raDecFromAltAz" "alt" "az" (λ (p : Place N A P). p.0) (λ p. p.1) ps
                (some (at_date N A P o m)))
            ∙ ap (λ p. (p.0, some p.1)) e,
        h',
      )
