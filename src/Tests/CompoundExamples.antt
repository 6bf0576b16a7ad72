-- ===== src/Tests/CompoundExamples.antt =====
-- The theorems about altitude and azimuth at a concrete observation of a sky of binary digits.
use sims_utils.Base.{◌≡◌, refl, Bool, true, false, none, some, [], ◌∷◌, arith, str_eq, String}
use sims_utils.Base.Result.{ok}
use sims_utils.Base.Dict.{Dict, lookup}
use sims_utils.Palpy.{Palpy}
use sims_utils.Mjd.Reads.{IsCoherent, in_tai, scale_of, time_of, utc_of}
use sims_utils.Coordinates.{
  calc_lmst_last, calc_gmst_gast, longitude_degrees, equation_of_equinoxes,
}
use sims_utils.Site.{assign, with_defaults, is_lsst, default_to, where_given, lsst_site_parameters}
use sims_utils.Astrometry.Observed.{site_parameters}
use sims_utils.Astrometry.Points.{at_date, parameters}
use sims_utils.Compound.Angles.{Angles, single, column, each}
use sims_utils.Compound.Horizon.{alt_az_pa_from_ra_dec_radians, ra_dec_from_alt_az_radians}
use sims_utils.Compound.Rotator.{full_turn}
use sims_utils.Compound.Vantage.{Vantage, horizon_point}
use sims_utils.Compound.Seen.{alt_az_pa-eq}
use sims_utils.Compound.Sky.{sky_above_point, ra_dec_from_alt_az-eq}
use sims_utils.Compound.Turned.{IsCircle, tel_of_sky, sky_of_tel, rotator_and_back}
use sims_utils.Compound.Temporary.{temporary_site}
use sims_utils.Compound.Params.{
  Visit, make_obs_params_az_alt_tel, make_obs_params_ra_dec_tel, make_obs_params_ra_dec_sky,
}
use sims_utils.Compound.Made.{obs_temp}
use sims_utils.Compound.Shown.{LeavesKeys, IsMetadata}
use sims_utils.Compound.Requests.{az_alt_tel-eq, ra_dec_tel-eq, ra_dec_sky_keeps_sky}
use sims_utils.Tests.Binary.{
  digit, clock, sphere, sphere-IsElementwise, place, visit, night, night-IsCoherent,
}
use sims_utils.Tests.PlaceExamples.{places, start, prms, Leaves, Date}

abbrev pub ephemeris : Palpy digit
ephemeris = record {
  array_length = λ x. none;
  floor = λ x. x;
  greater = λ x y. x;
  where_ = λ c x y. x;
  eqgal = λ x y. (x, y);
  eqgal_vector = λ x y. (x, y);
  galeq = λ x y. (x, y);
  galeq_vector = λ x y. (x, y);
  eqeqx = λ x. x;
  eqeqx_vector = λ x. x;
  gmsta = λ x y. x;
  gmsta_vector = λ x y. x;
}

vantage : Vantage digit clock sphere ephemeris night visit
unfolding parameters site_parameters scale_of time_of utc_of calc_lmst_last calc_gmst_gast
    longitude_degrees equation_of_equinoxes
vantage = record {
  site = place;
  longitude = true;
  latitude = true;
  prms = prms;
  lmst = false;
  last = false;
  has_site = refl;
  has_longitude = refl;
  has_latitude = refl;
  computed = refl;
  timed = refl;
}

abbrev points : Angles (Bool × Bool)
points = column places

alt_az_pa-eq_example :
    Leaves
      (λ m. (
        ok (
          each (λ p. (horizon_point digit clock sphere ephemeris night visit vantage p).0) points,
          each (λ p. (horizon_point digit clock sphere ephemeris night visit vantage p).1) points,
          each (λ p. (horizon_point digit clock sphere ephemeris night visit vantage p).2) points,
        ),
        some (at_date digit clock sphere visit m),
      ))
      (alt_az_pa_from_ra_dec_radians digit clock sphere ephemeris
        (each (λ p. p.0) points)
        (each (λ p. p.1) points)
        (some (at_date digit clock sphere visit start)))
alt_az_pa-eq_example =
    alt_az_pa-eq digit clock sphere ephemeris sphere-IsElementwise night visit vantage start points
      night-IsCoherent

ra_dec_from_alt_az-eq_example :
    let point = sky_above_point digit clock sphere ephemeris night visit vantage in
    Leaves
      (λ m. (
        ok (each (λ p. (point true p).0) points, each (λ p. (point true p).1) points),
        some (at_date digit clock sphere visit m),
      ))
      (ra_dec_from_alt_az_radians digit clock sphere ephemeris
        (each (λ p. p.0) points)
        (each (λ p. p.1) points)
        (some (at_date digit clock sphere visit start)))
ra_dec_from_alt_az-eq_example =
    ra_dec_from_alt_az-eq digit clock sphere ephemeris sphere-IsElementwise night visit vantage
      start points night-IsCoherent

circle : IsCircle digit
circle = record {
  turn_add = λ x y. refl;
  turn_sub = λ x y. refl;
  sub_add = λ x y. ground arith;
  add_sub = λ x y. ground arith;
}

abbrev turns : Angles ((Bool × Bool) × Bool)
turns = column (((true, false), true) ∷ ((false, false), true) ∷ [])

rotator_and_back_example :
    ((m : Date) × (tel_of_sky digit clock sphere ephemeris
          (each (λ t. t.0.0) turns)
          (each (λ t. t.0.1) turns)
          (each (λ t. t.1) turns)
          (some (at_date digit clock sphere visit start))
        ≡ (ok (each (λ t. full_turn digit t.1) turns), some (at_date digit clock sphere visit m)))
      × IsCoherent digit clock night m)
    × (m : Date) × (sky_of_tel digit clock sphere ephemeris
          (each (λ t. t.0.0) turns)
          (each (λ t. t.0.1) turns)
          (each (λ t. t.1) turns)
          (some (at_date digit clock sphere visit start))
        ≡ (ok (each (λ t. full_turn digit t.1) turns), some (at_date digit clock sphere visit m)))
    × IsCoherent digit clock night m
rotator_and_back_example =
    rotator_and_back digit clock sphere ephemeris sphere-IsElementwise night visit vantage start
      turns circle night-IsCoherent

-- Whether an argument is a number
abbrev shape : Angles Bool → Bool
shape (single x) = true
shape (column xs) = false

abbrev request : Visit digit clock sphere ephemeris shape
request = record {
  mjd = true;
  band = true;
  longitude = true;
  latitude = false;
  kwargs = ("vistime", single true) ∷ [];
}

at_lsst : Vantage digit clock sphere ephemeris (in_tai true) (obs_temp digit clock true true false)
unfolding obs_temp assign with_defaults is_lsst default_to where_given temporary_site
    lsst_site_parameters parameters site_parameters scale_of time_of utc_of calc_lmst_last
    calc_gmst_gast longitude_degrees equation_of_equinoxes
at_lsst = record {
  site = assign digit (with_defaults digit (temporary_site digit clock true false));
  longitude = true;
  latitude = false;
  prms = true ∷ [];
  lmst = false;
  last = false;
  has_site = refl;
  has_longitude = refl;
  has_latitude = refl;
  computed = refl;
  timed = refl;
}

leaves_keys : LeavesKeys request.kwargs
leaves_keys = (
  refl,
  (refl, (refl, (refl, (refl, (refl, (refl, (refl, (refl, (refl, (refl, (refl, tt))))))))))),
)

az_alt_tel-eq_example :
    (d : Dict String (Angles Bool × Bool)) × (make_obs_params_az_alt_tel digit clock sphere
        ephemeris shape
        (single true)
        (single false)
        request
        (single true)
      ≡ ok d)
    × IsMetadata digit clock sphere ephemeris shape request at_lsst d
        (sky_above_point digit clock sphere ephemeris
          (in_tai true)
          (obs_temp digit clock true true false)
          at_lsst
          false
          (false, true))
        (single false)
        (single true)
        true
az_alt_tel-eq_example =
    az_alt_tel-eq digit clock sphere ephemeris shape sphere-IsElementwise request refl at_lsst true
      false true leaves_keys

ra_dec_tel-eq_example :
    let q =
      horizon_point digit clock sphere ephemeris
        (in_tai true)
        (obs_temp digit clock true true false)
        at_lsst
        (true, false) in
    (d : Dict String (Angles Bool × Bool)) × (make_obs_params_ra_dec_tel digit clock sphere
        ephemeris shape
        (single true)
        (single false)
        request
        (single true)
      ≡ ok d)
    × IsMetadata digit clock sphere ephemeris shape request at_lsst d
        (true, false)
        (single q.0)
        (single q.1)
        true
ra_dec_tel-eq_example =
    ra_dec_tel-eq digit clock sphere ephemeris shape sphere-IsElementwise request refl at_lsst
      (true, false) true leaves_keys

ra_dec_sky_keeps_sky_example :
    (d : Dict String (Angles Bool × Bool)) × (make_obs_params_ra_dec_sky digit clock sphere
        ephemeris shape
        (single true)
        (single false)
        request
        (single true)
      ≡ ok d)
    × (lookup str_eq "pointingRA" d ≡ some (single true, true))
    × (lookup str_eq "pointingDec" d ≡ some (single false, true))
    × (lookup str_eq "Opsim_rotskypos" d ≡ some (single true, true))
ra_dec_sky_keeps_sky_example =
    ra_dec_sky_keeps_sky digit clock sphere ephemeris shape sphere-IsElementwise request refl
      at_lsst circle (true, false) true refl refl refl
