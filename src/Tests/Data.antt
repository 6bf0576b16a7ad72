-- ===== src/Tests/Data.antt =====
-- Exact degrees for numpy, a clock that only counts for astropy, and some objects.
use sims_utils.Base.{ℕ, ◌≡◌, true, false, none, some, List, [], ◌∷◌, arith}
use sims_utils.Base.Int.{pos, negsuc}
use sims_utils.Base.Dict.{IsKeyTest}
use sims_utils.Numpy.{Numpy}
use sims_utils.Astropy.{Astropy}
use sims_utils.Bounds.Exact.{Angle, angle, sides, exact}
use sims_utils.Site.{SiteArgs}
use sims_utils.Observation.State.{ObservationArgs, PhoSimMetaData, plain}
use sims_utils.Observation.Steps.{
  Setter, bound_length, pointing_ra, bound_type, bandpass_m5_and_seeing, mjd,
}

abbrev pub N : Numpy
N = exact 360

-- A time is its number; the IERS table does not reach it.
abbrev pub A : Astropy N
A = record {
  Time = Angle;
  Delta = Angle;
  tai_time = λ x. x;
  utc_time = λ x. x;
  tai_mjd = λ x. x;
  utc_mjd = λ x. N.sub x (angle (pos 1));
  tt_mjd = λ x. x;
  tdb_mjd = λ x. x;
  ut1_mjd = λ x. none;
  delta_ut1_utc = λ x. none;
  delta_value = λ x. none;
  delta_number = λ x. x;
  same_time = λ x y. N.eq x y;
}

abbrev pub deg : ℕ → Angle
deg n = angle (pos n)

pub same_key-IsKeyTest : IsKeyTest N.same_key
same_key-IsKeyTest = record {
  same_refl = λ a. ground arith;
  same_sym = λ a b h. ground arith;
  same_trans = λ a b c h k. ground arith;
}

abbrev pub pointing : ObservationArgs N A
pointing = record {
  bound_type = some "box";
  bound_length = some (sides (pos 3) (pos 2));
  mjd = some (plain (deg 52000));
  pointing_ra = some (deg 350);
  pointing_dec = some (angle (negsuc 9));
  rot_sky_pos = some (deg 5);
  bandpass_name = some (sides (pos 1) (pos 2));
  pho_sim_meta_data = none;
  site = none;
  m5 = some (sides (pos 24) (pos 25));
  sky_brightness = none;
  seeing = none;
  epoch = deg 2000;
}

abbrev pub opsim : PhoSimMetaData N
opsim =
    ("Opsim_filter", deg 7)
    ∷ ("pointingRA", deg 10)
    ∷ ("pointingDec", deg 20)
    ∷ ("Opsim_expmjd", deg 9)
    ∷ []

-- A pointing that is taken from phoSimMetaData.
abbrev pub from_opsim : ObservationArgs N A
from_opsim = record pointing {
  mjd = none;
  pointing_ra = none;
  pointing_dec = none;
  bandpass_name = none;
  pho_sim_meta_data = some opsim;
  m5 = some (deg 24);
}

abbrev pub changes : List (Setter N A)
changes =
    bound_length (deg 3)
    ∷ pointing_ra (deg 40)
    ∷ bound_type (some "circle")
    ∷ mjd (plain (deg 53000))
    ∷ bandpass_m5_and_seeing (some (deg 4)) (some (deg 23)) none
    ∷ []

abbrev pub named_lsst : SiteArgs N
named_lsst = record {
  name = some (record { text = "LSST"; interned = true });
  longitude = none;
  latitude = some (deg 30);
  height = none;
  temperature = none;
  pressure = none;
  humidity = none;
  lapse_rate = none;
}

pub remainder_sign : (x : Angle) → N.lt (N.mod_ x (N.literal "360.0")) (N.literal "0") ≡ false
remainder_sign (angle (pos n)) = ground arith
remainder_sign (angle (negsuc n)) = ground arith
remainder_sign (sides (pos n) y) = ground arith
remainder_sign (sides (negsuc n) y) = ground arith
