-- ===== src/Tests/Binary.antt =====
-- Numbers of one binary digit, in which arithmetic is exact, and a palpy for them.
use sims_utils.Base.{
  ◌≡◌, refl, ap, Bool, true, false, not, ◌&&◌, Option, none, some, List, [], ◌∷◌, map, arith,
  str_eq, if◌then◌else◌, ◌||◌, ◌∙◌,
}
use sims_utils.Numpy.{Numpy}
use sims_utils.Arrays.{zip_with, zip_with-map, map-map, pair_columns, map_id}
use sims_utils.Astropy.{Astropy}
use sims_utils.Palpy.Places.{Places, Star, IsElementwise, all_given, AltAz, alt_az_columns}
use sims_utils.Mjd.{from_utc}
use sims_utils.Mjd.Reads.{Given, in_utc, IsCoherent, scale_of, time_of, utc_of}
use sims_utils.Site.{Site}
use sims_utils.Observation.State.{ObservationMetaData}
use sims_utils.FocalPlane.Rotation.{IsExact}

abbrev pub xor : Bool → Bool → Bool
xor true y = not y
xor false y = y

abbrev pub digit : Numpy
digit = record {
  Object = Bool;
  literal = λ s. str_eq s "-1.0" || str_eq s "1.0";
  add = xor;
  sub = xor;
  mul = λ x y. x && y;
  div = λ x y. x && y;
  mod_ = λ x y. x;
  lt = λ x y. not x && y;
  eq = λ x y. not (xor x y);
  same_key = λ x y. not (xor x y);
  pi = true;
  radians = λ x. x;
  degrees = λ x. x;
  sin = λ x. x;
  cos = not;
  arcsin = λ x. x;
  arccos = λ x. x;
  arctan2 = λ x y. x;
  sqrt = λ x. x;
  neg = λ x. x;
  sign = λ x. x;
  abs = λ x. x;
  nan = true;
  is_nan = λ x. false;
  is_float = λ x. true;
  is_int = λ x. false;
  is_number = λ x. true;
  to_float = λ x. some x;
  items? = λ x. none;
  iter? = λ x. none;
  format_f = λ x. "";
  format_s = λ x. "";
}

abbrev pub clock : Astropy digit
clock = record {
  Time = Bool;
  Delta = Bool;
  tai_time = λ x. x;
  utc_time = λ x. x;
  tai_mjd = λ x. x;
  utc_mjd = λ x. x;
  tt_mjd = not;
  tdb_mjd = not;
  ut1_mjd = λ x. none;
  delta_ut1_utc = λ x. none;
  delta_value = λ x. none;
  delta_number = λ x. x;
  same_time = λ x y. not (xor x y);
}

-- A point is moved by each step, and is refused where it is across the sky from the pointing.
abbrev project : Bool → Bool → Bool → Bool → Option (Bool × Bool)
project rr dd ra dec = if xor dd dec then none else some (xor rr ra, xor dd dec)

-- The azimuth is the hour angle, the altitude the Dec, and the parallactic angle both.
abbrev turned_sky : Bool × Bool → AltAz Bool
turned_sky (ha, dec) = record {
  az = ha;
  azd = false;
  azdd = false;
  alt = dec;
  altd = false;
  altdd = false;
  pa = xor ha dec;
  pad = false;
  padd = false;
}

abbrev pub sphere : Places digit
sphere = record {
  mappa = λ epoch date. date ∷ [];
  aoppa = λ date dut elong phi hm xp yp tdk pmb rh wl tlr. some (date ∷ []);
  mapqk = λ ra dec pm_ra pm_dec px rv prms. (not ra, dec);
  mapqk_vector = λ ra dec pm_ra pm_dec px rv prms. some (map not ra, dec);
  ampqk = λ ra dec prms. (not ra, dec);
  ampqk_vector = λ ra dec prms. some (map not ra, dec);
  aopqk = λ ra dec prms. (ra, dec, ra, not dec, ra);
  aopqk_vector = λ ra dec prms. some (ra, dec, ra, map not dec, ra);
  oapqk = λ kind ra dec prms. (ra, not dec);
  oapqk_vector = λ kind ra dec prms. some (ra, map not dec);
  de2h = λ ha dec phi. some (ha, dec);
  de2h_vector = λ ha dec phi. some (ha, dec);
  altaz = λ ha dec phi. turned_sky (ha, dec);
  altaz_vector =
      λ ha dec phi. some (alt_az_columns turned_sky (zip_with (λ (h d : Bool). (h, d)) ha dec));
  ds2tp = project;
  ds2tp_vector = λ rr dd ra dec. elim (all_given (zip_with (λ r d. project r d ra dec) rr dd)) [
    | some xys ↦ some (pair_columns xys)
    | none ↦ none
  ];
  dtp2s = λ x y ra dec. (xor x ra, xor y dec);
  dtp2s_vector = λ x y ra dec. some (map (λ a. xor a ra) x, map (λ b. xor b dec) y);
  dcc2s = λ v. (true, false);
  refco = λ hm tdk pmb rh wl phi tlr eps. some (true, false);
  refz = λ zu a b. not zu;
  refz_vector = λ zu a b. map not zu;
  prenut = λ epoch date. ((true, false, false), (false, true, false), (false, false, true));
  epj = λ date. date;
  pm = λ ra dec pm_ra pm_dec px rv from to. (not ra, dec);
  pm_vector = λ ra dec pm_ra pm_dec px rv from to. some (map not ra, dec);
}

unfoldable pub digit-IsExact : IsExact digit
digit-IsExact = record {
  zero = false;
  one = true;
  add_comm = λ x y. ground arith;
  add_assoc = λ x y z. ground arith;
  add_zero = λ x. ground arith;
  mul_comm = λ x y. ground arith;
  mul_assoc = λ x y z. ground arith;
  mul_one = λ x. ground arith;
  mul_add = λ x y z. ground arith;
  sub_eq = λ x y. ground arith;
  add_negated = λ x. ground arith;
  negated_twice = λ x. ground arith;
  cos_negated = λ x. ground arith;
  sin_negated = λ x. ground arith;
  squares = λ x. ground arith;
}

abbrev Pair : Type 0
Pair = Bool × Bool

paired :
    (ps : List Pair)
    → zip_with (λ (h d : Bool). (h, d)) (map (λ p. p.0) ps) (map (λ p. p.1) ps) ≡ ps
paired ps = zip_with-map (λ (h d : Bool). (h, d)) (λ (p : Pair). p.0) (λ p. p.1) ps ∙ map_id ps

firsts : (f : Bool → Bool) (ps : List Pair) → map f (map (λ p. p.0) ps) ≡ map (λ p. f p.0) ps
firsts f ps = map-map f (λ (p : Pair). p.0) ps

pub sphere-IsElementwise : IsElementwise digit sphere
sphere-IsElementwise = record {
  mapqk_each = λ stars prms. ap some (
      cc (
        map-map not (λ (s : Star digit). s.ra) stars,
        map-map (λ (p : Pair). p.0) (λ (s : Star digit). (not s.ra, s.dec)) stars,
        map-map (λ (p : Pair). p.1) (λ (s : Star digit). (not s.ra, s.dec)) stars,
      ));
  ampqk_each = λ ps prms. ap some (
      cc (
        firsts not ps,
        map-map (λ (p : Pair). p.0) (λ (p : Pair). (not p.0, p.1)) ps,
        map-map (λ (p : Pair). p.1) (λ (p : Pair). (not p.0, p.1)) ps,
      ));
  aopqk_each = λ ps prms. ap some (cc (map-map not (λ (p : Pair). p.1) ps));
  oapqk_each = λ ps prms. ap some (
      cc (
        map-map not (λ (p : Pair). p.1) ps,
        map-map (λ (p : Pair). p.0) (λ (p : Pair). (p.0, not p.1)) ps,
        map-map (λ (p : Pair). p.1) (λ (p : Pair). (p.0, not p.1)) ps,
      ));
  pm_each = λ stars from to. ap some (
      cc (
        map-map not (λ (s : Star digit). s.ra) stars,
        map-map (λ (p : Pair). p.0) (λ (s : Star digit). (not s.ra, s.dec)) stars,
        map-map (λ (p : Pair). p.1) (λ (s : Star digit). (not s.ra, s.dec)) stars,
      ));
  ds2tp_each = λ ps ra dec.
      ap (λ os. elim (all_given os) [ some xys ↦ some (pair_columns xys) | none ↦ none ])
        (zip_with-map (λ r d. project r d ra dec) (λ (p : Pair). p.0) (λ p. p.1) ps);
  dtp2s_each = λ ps ra dec. ap some (
      cc (
        firsts (λ a. xor a ra) ps,
        map-map (λ b. xor b dec) (λ (p : Pair). p.1) ps,
        map-map (λ (p : Pair). p.0) (λ (p : Pair). (xor p.0 ra, xor p.1 dec)) ps,
        map-map (λ (p : Pair). p.1) (λ (p : Pair). (xor p.0 ra, xor p.1 dec)) ps,
      ));
  altaz_each = λ ps lat. ap (λ qs. some (alt_az_columns turned_sky qs)) (paired ps);
}

abbrev pub place : Site digit
place = record {
  name = none;
  longitude_rad = some true;
  latitude_rad = some true;
  longitude = some true;
  latitude = some true;
  height = some true;
  pressure = some true;
  temperature_kelvin = some true;
  temperature = some true;
  humidity = some true;
  lapse_rate = some true;
}

abbrev pub visit : ObservationMetaData digit clock
visit = record {
  bounds = none;
  bound_type = none;
  bandpass = none;
  sky_brightness = none;
  site = some place;
  epoch = false;
  mjd = some (from_utc digit clock true);
  rot_sky_pos = some true;
  pointing_ra = some true;
  pointing_dec = some false;
  bound_length = none;
  pho_sim_meta_data = none;
  m5 = none;
  seeing = none;
}

abbrev pub night : Given digit clock
night = in_utc true

pub night-IsCoherent : IsCoherent digit clock night (from_utc digit clock true)
unfolding from_utc scale_of time_of utc_of
night-IsCoherent = record {
  given = refl;
  same_time = refl;
  keeps_tai = tt;
  keeps_utc = refl;
  keeps_ut1 = tt;
  keeps_dut1 = tt;
  keeps_tt = tt;
  keeps_tdb = tt;
}
