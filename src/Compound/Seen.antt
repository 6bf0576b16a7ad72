-- ===== src/Compound/Seen.antt =====
-- What `_altAzPaFromRaDec` computes, of numbers and of arrays.
use sims_utils.Base.{◌≡◌, refl, sym, ap, ◌∙◌, Option, some, List, map}
use sims_utils.Base.Action.{>>=-ok, ◌>>=◌, pure}
use sims_utils.Base.Result.{ok}
use sims_utils.Numpy.{Numpy}
use sims_utils.Arrays.{map-map}
use sims_utils.Astropy.{Astropy}
use sims_utils.Palpy.{Palpy}
use sims_utils.Palpy.Places.{Places, IsElementwise, AltAz, alt_az_columns}
use sims_utils.Mjd.{ModifiedJulianDate}
use sims_utils.Mjd.Reads.{Given, IsCoherent}
use sims_utils.Observation.State.{ObservationMetaData}
use sims_utils.Astrometry.Actions.{unless_none, no_obs_metadata}
use sims_utils.Astrometry.Observed.{Observing, the_site}
use sims_utils.Astrometry.Points.{Place, at_date}
use sims_utils.FocalPlane.Points.{seen, observed_in_2000-eq, observed_pointing-eq}
use sims_utils.FocalPlane.Projection.{observed_in_2000, observed_pointing}
use sims_utils.Compound.Angles.{Angles, single, column, each, one_kind, one_kind-each}
use sims_utils.Compound.Horizon.{
  Pair, Triple, observed_angles, local_apparent_time, horizontal, horizon_of,
  alt_az_pa_from_ra_dec_radians,
}
use sims_utils.Compound.Vantage.{Vantage, horizon_point, local_apparent_time-eq, the_site-eq}

alt_az_columns-map :
    {X S T : Type 0} (f : S → AltAz X) (g : T → S) (ts : List T)
    → alt_az_columns f (map g ts) ≡ alt_az_columns (λ t. f (g t)) ts
alt_az_columns-map f g ts = cc (
  map-map (λ s. (f s).az) g ts,
  map-map (λ s. (f s).azd) g ts,
  map-map (λ s. (f s).azdd) g ts,
  map-map (λ s. (f s).alt) g ts,
  map-map (λ s. (f s).altd) g ts,
  map-map (λ s. (f s).altdd) g ts,
  map-map (λ s. (f s).pa) g ts,
  map-map (λ s. (f s).pad) g ts,
  map-map (λ s. (f s).padd) g ts,
)

module _ (N : Numpy) (A : Astropy N) (P : Places N) (Q : Palpy N) (law : IsElementwise N P)
    (g : Given N A) (o : ObservationMetaData N A) (at : Vantage N A P Q g o) where
  open N use {Object, literal, sub, mul, radians}

  columns-eq :
      (ps : List (Place N A P))
      → P.altaz_vector
          (map
            (sub (radians (mul at.last (literal "15.0"))))
            (map (λ p. (seen N A P at.prms g p).0) ps))
          (map (λ p. (seen N A P at.prms g p).1) ps)
          at.latitude
        ≡ some (
            alt_az_columns
              (λ p.
                P.altaz
                  (sub (radians (mul at.last (literal "15.0"))) (seen N A P at.prms g p).0)
                  (seen N A P at.prms g p).1
                  at.latitude)
              ps)
  columns-eq ps =
      let start = radians (mul at.last (literal "15.0")) in
      let row : Place N A P → Place N A P =
        λ p. (sub start (seen N A P at.prms g p).0, (seen N A P at.prms g p).1) in
      ap (λ xs. P.altaz_vector xs (map (λ p. (seen N A P at.prms g p).1) ps) at.latitude)
        (map-map (sub start) (λ p. (seen N A P at.prms g p).0) ps
          ∙ sym (map-map (λ (q : Place N A P). q.0) row ps))
      ∙ ap (λ ys. P.altaz_vector (map (λ q. q.0) (map row ps)) ys at.latitude)
          (sym (map-map (λ (q : Place N A P). q.1) row ps))
      ∙ law.altaz_each (map row ps) at.latitude
      ∙ ap some (alt_az_columns-map (λ (q : Place N A P). P.altaz q.0 q.1 at.latitude) row ps)

  observed_angles-eq :
      (m : ModifiedJulianDate N A) (ps : Angles (Place N A P))
      → IsCoherent N A g m
      → (m' : ModifiedJulianDate N A) × (observed_angles N A P Q
            (each (λ p. p.0) ps)
            (each (λ p. p.1) ps)
            (at_date N A P o m)
          ≡ (
            ok (
              each (λ p. (seen N A P at.prms g p).0) ps,
              each (λ p. (seen N A P at.prms g p).1) ps,
            ),
            at_date N A P o m',
          ))
        × IsCoherent N A g m'
  unfolding observed_angles each
  observed_angles-eq m (single p) h =
      let (m', e, h') =
        observed_pointing-eq N A P law g at.prms o at.site at.has_site at.computed m p h in
      (
        m',
        >>=-ok (observed_pointing N A P p.0 p.1) (λ q. pure (single q.0, single q.1))
            (at_date N A P o m) e,
        h',
      )
  observed_angles-eq m (column ps) h =
      let (m', e, h') =
        observed_in_2000-eq N A P law g at.prms o at.site at.has_site at.computed m ps h in
      (
        m',
        >>=-ok (observed_in_2000 N A P (map (λ p. p.0) ps) (map (λ p. p.1) ps))
              (λ c. pure (column c.0, column c.1)) (at_date N A P o m) e
            ∙ simp (
              map-map (λ (p : Place N A P). p.0) (seen N A P at.prms g) ps,
              map-map (λ (p : Place N A P). p.1) (seen N A P at.prms g) ps,
            ),
        h',
      )

  horizontal-eq :
      (m : ModifiedJulianDate N A) (ps : Angles (Place N A P))
      → horizontal N A P Q
          (each
            (sub (radians (mul at.last (literal "15.0"))))
            (each (λ p. (seen N A P at.prms g p).0) ps))
          (each (λ p. (seen N A P at.prms g p).1) ps)
          (some at.latitude)
          (at_date N A P o m)
        ≡ (
          ok (
            each (λ p. (horizon_point N A P Q g o at p).0) ps,
            each (λ p. (horizon_point N A P Q g o at p).1) ps,
            each (λ p. (horizon_point N A P Q g o at p).2) ps,
          ),
          at_date N A P o m,
        )
  unfolding horizontal each horizon_point
  horizontal-eq m (single p) = refl
  horizontal-eq m (column ps) = rw (columns-eq ps) refl

  pub horizon_of-eq :
      (m : ModifiedJulianDate N A) (ps : Angles (Place N A P))
      → IsCoherent N A g m
      → (m' : ModifiedJulianDate N A) × (horizon_of N A P Q
            (each (λ p. p.0) ps)
            (each (λ p. p.1) ps)
            (at_date N A P o m)
          ≡ (
            ok (
              each (λ p. (horizon_point N A P Q g o at p).0) ps,
              each (λ p. (horizon_point N A P Q g o at p).1) ps,
              each (λ p. (horizon_point N A P Q g o at p).2) ps,
            ),
            at_date N A P o m',
          ))
        × IsCoherent N A g m'
  unfolding horizon_of
  horizon_of-eq m ps h =
      let (m', e, h') = observed_angles-eq m ps h in
      let (m'', e', h'') = local_apparent_time-eq N A P Q g o at m' h' in
      let turn : Pair N A P Q → Object → Option Object → Observing N A P (Triple N A P Q) =
        λ places last.
          horizontal N A P Q (each (sub (radians (mul last (literal "15.0")))) places.0) places.1 in
      let last_step : Pair N A P Q → Object → Observing N A P (Triple N A P Q) =
        λ places last. the_site N A P >>= λ s. turn places last s.latitude_rad in
      let places : Pair N A P Q =
        (each (λ p. (seen N A P at.prms g p).0) ps, each (λ p. (seen N A P at.prms g p).1) ps) in
      (
        m'',
        >>=-ok (observed_angles N A P Q (each (λ p. p.0) ps) (each (λ p. p.1) ps))
              (λ q. local_apparent_time N A P Q >>= last_step q) (at_date N A P o m) e
            ∙ >>=-ok (local_apparent_time N A P Q) (last_step places) (at_date N A P o m') e'
            ∙ >>=-ok (the_site N A P) (λ s. turn places at.last s.latitude_rad)
                (at_date N A P o m'') (the_site-eq N A P Q g o at m'')
            ∙ ap (λ lat. turn places at.last lat (at_date N A P o m'')) at.has_latitude
            ∙ horizontal-eq m'' ps,
        h'',
      )

  -- Of two numbers or of two columns, of an observation whose site is there with its longitude and
  -- latitude, and whose parameters and sidereal times palpy computes, `_altAzPaFromRaDec` gives for
  -- each place the altitude, azimuth and parallactic angle that palpy gives, at the latitude of the
  -- site, of the hour angle and Dec of the place as it is observed at the date that was given. It
  -- leaves the observation as it was but for what the date keeps, which is still its own scales.
  pub alt_az_pa-eq :
      (m : ModifiedJulianDate N A) (ps : Angles (Place N A P))
      → IsCoherent N A g m
      → (m' : ModifiedJulianDate N A) × (alt_az_pa_from_ra_dec_radians N A P Q
            (each (λ p. p.0) ps)
            (each (λ p. p.1) ps)
            (some (at_date N A P o m))
          ≡ (
            ok (
              each (λ p. (horizon_point N A P Q g o at p).0) ps,
              each (λ p. (horizon_point N A P Q g o at p).1) ps,
              each (λ p. (horizon_point N A P Q g o at p).2) ps,
            ),
            some (at_date N A P o m'),
          ))
        × IsCoherent N A g m'
  unfolding alt_az_pa_from_ra_dec_radians
  alt_az_pa-eq m ps h =
      let (m', e, h') = horizon_of-eq m ps h in
      let ra : Angles Object = each (λ p. p.0) ps in
      let dec : Angles Object = each (λ p. p.1) ps in
      (
        m',
        >>=-ok (one_kind "altAzPaFromRaDec" "RA" "Dec" ra dec)
              (λ _. unless_none (no_obs_metadata "observedFromICRS") (horizon_of N A P Q ra dec))
              (some (at_date N A P o m))
              (one_kind-each "altAzPaFromRaDec" "RA" "Dec" (λ (p : Place N A P). p.0) (λ p. p.1) ps
                (some (at_date N A P o m)))
            ∙ ap (λ p. (p.0, some p.1)) e,
        h',
      )
