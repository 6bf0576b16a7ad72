-- ===== src/Compound/Measured.antt =====
-- What `calcObsDefaults` and the `makeObsParams…` compute of one place.
use sims_utils.Base.{◌≡◌, refl, ap, ◌∙◌, true, false, some, arith, Option}
use sims_utils.Base.Action.{Action, >>=-ok, ◌>>=◌, evaluate, pure}
use sims_utils.Base.Result.{Result, ok}
use sims_utils.Numpy.{Numpy}
use sims_utils.Arrays.{Value, number}
use sims_utils.Astropy.{Astropy}
use sims_utils.Palpy.{Palpy}
use sims_utils.Palpy.Places.{Places, IsElementwise}
use sims_utils.Mjd.{ModifiedJulianDate, from_tai}
use sims_utils.Mjd.Reads.{Given, in_tai, IsCoherent, scale_of, time_of}
use sims_utils.Coordinates.Vectors.{VectorError, distance, haversine, distance-number}
use sims_utils.Observation.State.{ObservationMetaData}
use sims_utils.Astrometry.Actions.{AstrometryError}
use sims_utils.Astrometry.Points.{Place, at_date}
use sims_utils.Compound.Angles.{Angles, single, each}
use sims_utils.Compound.Horizon.{Pair, ra_dec_from_alt_az_radians}
use sims_utils.Compound.Rotator.{full_turn, get_rot_sky_pos_radians}
use sims_utils.Compound.Vantage.{Vantage, horizon_point}
use sims_utils.Compound.Sky.{sky_above_point, ra_dec_from_alt_az-eq}
use sims_utils.Compound.Turned.{get_rot_sky_pos-eq}
use sims_utils.Compound.Temporary.{
  astrometry_raised, haversine_raised, raised, Asking, asked, on_temporary,
}
use sims_utils.Compound.Defaults.{Aim, Metadata, as_value, as_angles, entries, measured}
use sims_utils.Compound.Made.{obs_temp, temporary_observation-eq}

pub from_tai-IsCoherent :
    (N : Numpy) (A : Astropy N) (x : N.Object) → IsCoherent N A (in_tai x) (from_tai N A x)
unfolding from_tai scale_of time_of
from_tai-IsCoherent N A x = ground arith

module _ (N : Numpy) (A : Astropy N) where
  pub asked-ok :
      {X : Type 0} (m : Action (Option (ObservationMetaData N A)) AstrometryError X)
      (s : Option (ObservationMetaData N A)) {s' : Option (ObservationMetaData N A)} {x : X}
      → m s ≡ (ok x, s')
      → asked N A m s ≡ (ok x, s')
  asked-ok m s e = ap (λ p. (raised astrometry_raised p.0, p.1)) e

  pub on_temporary-eq :
      {X : Type 0} (mjd long lat : N.Object) (m : Asking N A X)
      → N.is_float mjd ≡ true
      → on_temporary N A mjd long lat m ≡ (m (some (obs_temp N A mjd long lat))).0
  unfolding on_temporary
  on_temporary-eq mjd long lat m float = rw (temporary_observation-eq N A mjd long lat float) refl

module _ (N : Numpy) (A : Astropy N) (P : Places N) (Q : Palpy N) (g : Given N A)
    (o : ObservationMetaData N A) (at : Vantage N A P Q g o) where
  open N use {Object, literal, sub, div, neg, pi}

  -- The place of the Moon that `calcObsDefaults` takes
  unfoldable pub moon : Place N A P
  moon = sky_above_point N A P Q g o at false (div (neg pi) (literal "2."), literal "0.")

  -- The rotation on the sky of a rotation of the camera, at a place
  unfoldable pub rot_sky : Place N A P → Object → Object
  rot_sky p rot = full_turn N (sub rot (horizon_point N A P Q g o at p).2)

  -- A place with what else `calcObsDefaults` is given
  abbrev pub aim : Place N A P → Angles Object → Angles Object → Object → Object → Aim N A P Q
  aim p alt az rot band = record {
    ra = single p.0;
    dec = single p.1;
    alt = alt;
    az = az;
    rot_tel = single rot;
    band = band;
  }

  -- Its metadata
  abbrev pub metadata :
      Place N A P → Angles Object → Angles Object → Object → Object → Metadata N A P Q
  metadata p alt az rot band =
      entries N A P Q (aim p alt az rot band) (single moon.0) (single moon.1)
        (single (distance N moon.0 moon.1 p.0 p.1)) (single (rot_sky p rot))

  module _ (law : IsElementwise N P) where
    pub measured-eq :
        (m : ModifiedJulianDate N A) (p : Place N A P) (alt az : Angles Object) (rot band : Object)
        → IsCoherent N A g m
        → (measured N A P Q (aim p alt az rot band) (some (at_date N A P o m))).0
          ≡ ok (metadata p alt az rot band)
    unfolding measured moon rot_sky each
    measured-eq m p alt az rot band h =
        let below : Place N A P = (div (neg pi) (literal "2."), literal "0.") in
        let (m', e, h') = ra_dec_from_alt_az-eq N A P Q law g o at m (single below) h in
        let (m'', e', h'') = get_rot_sky_pos-eq N A P Q law g o at m' (single (p, rot)) h' in
        let turned : Angles Object → Pair N A P Q → Asking N A (Metadata N A P Q) = λ dist sky.
          asked N A (get_rot_sky_pos_radians N A P Q (single p.0) (single p.1) (single rot))
          >>= λ r. pure (entries N A P Q (aim p alt az rot band) sky.0 sky.1 dist r) in
        let away : Result VectorError (Value Object)
            → Pair N A P Q
            → Asking N A (Metadata N A P Q) =
          λ r sky. evaluate (λ _. raised haversine_raised r) >>= λ d. turned (as_angles d) sky in
        let place : Pair N A P Q = (single moon.0, single moon.1) in
        ap (λ q. q.0)
          (>>=-ok (asked N A (ra_dec_from_alt_az_radians N A P Q (single below.0) (single below.1)))
              (λ sky.
                away (haversine N (as_value sky.0) (as_value sky.1) (number p.0) (number p.1)) sky)
              (some (at_date N A P o m))
              (asked-ok N A (ra_dec_from_alt_az_radians N A P Q (single below.0) (single below.1))
                (some (at_date N A P o m)) e)
            ∙ ap (λ r. away r place (some (at_date N A P o m')))
                (distance-number N moon.0 moon.1 p.0 p.1)
            ∙ >>=-ok
                (asked N A (get_rot_sky_pos_radians N A P Q (single p.0) (single p.1) (single rot)))
                (λ r. pure (
                  entries N A P Q (aim p alt az rot band) place.0 place.1
                    (single (distance N moon.0 moon.1 p.0 p.1)) r))
                (some (at_date N A P o m'))
                (asked-ok N A
                  (get_rot_sky_pos_radians N A P Q (single p.0) (single p.1) (single rot))
                  (some (at_date N A P o m')) e'))
