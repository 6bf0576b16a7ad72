-- ===== src/Observation/Methods.antt =====
-- The public methods of ObservationMetaData: the constructor, the setters and the properties.
use sims_utils.Base.{String, Bool, true, false, ◌||◌, Option, none, some, is_some, if◌then◌else◌}
use sims_utils.Base.Result.{Result, ok, err}
use sims_utils.Base.Action.{◌>>◌, ◌>>=◌, modify, pure, raise_when, evaluate}
use sims_utils.Numpy.{Numpy}
use sims_utils.Astropy.{Astropy}
use sims_utils.Mjd.{ModifiedJulianDate, from_tai}
use sims_utils.Site.{Site, where_given}
use sims_utils.Observation.State.{
  ObservationError, mjd_type, overwrite_mjd, overwrite_rot_sky_pos, overwrite_bandpass,
  overwrite_seeing, overwrite_pointing_ra, overwrite_pointing_dec, not_a_dict, PhoSimMetaData,
  MjdValue, date, plain, ObservationMetaData, ObservationArgs,
}
use sims_utils.Observation.Assign.{
  has_key, assign_dict_keyed_to_bandpass, Method, build_bounds, assign_pho_sim_meta_data,
}

module _ (N : Numpy) (A : Astropy N) where
  open N use {Object, literal, radians, degrees, is_float, is_int}

  -- Whether phoSimMetaData is there and has the key.
  unfoldable pub is_set_by : String → Option (PhoSimMetaData N) → Bool
  is_set_by key none = false
  is_set_by key (some d) = has_key key d

  -- The guard of the setters.
  unfoldable pub guard : String → ObservationError → Method N A
  unfolding is_set_by
  guard key e = raise_when (λ o. is_set_by key o.pho_sim_meta_data) e

  unfoldable pub set_pointing_ra : Object → Method N A
  unfolding guard
  set_pointing_ra v = do
    guard "pointingRA" overwrite_pointing_ra
    modify (λ o. record o { pointing_ra = some (radians v) })
    build_bounds N A

  unfoldable pub set_pointing_dec : Object → Method N A
  unfolding guard
  set_pointing_dec v = do
    guard "pointingDec" overwrite_pointing_dec
    modify (λ o. record o { pointing_dec = some (radians v) })
    build_bounds N A

  unfoldable pub set_bound_length : Object → Method N A
  set_bound_length v = do
    modify (λ o. record o { bound_length = some (radians v) })
    build_bounds N A

  unfoldable pub set_bound_type : Option String → Method N A
  set_bound_type v = do modify (λ o. record o { bound_type = v }); build_bounds N A

  unfoldable pub set_rot_sky_pos : Object → Method N A
  unfolding guard
  set_rot_sky_pos v = do
    guard "Opsim_rotskypos" overwrite_rot_sky_pos
    modify (λ o. record o { rot_sky_pos = some (radians v) })

  unfoldable pub set_m5 : Option Object → Method N A
  set_m5 v = do
    d ← evaluate (λ o. assign_dict_keyed_to_bandpass N o.bandpass v)
    modify (λ o. record o { m5 = d })

  -- The assignment in the setter of `seeing` and in `setBandpassM5andSeeing`.
  unfoldable pub assign_seeing : Option Object → Method N A
  assign_seeing v = do
    d ← evaluate (λ o. assign_dict_keyed_to_bandpass N o.bandpass v)
    modify (λ o. record o { seeing = d })

  unfoldable pub set_seeing : Option Object → Method N A
  unfolding guard assign_seeing
  set_seeing v = do guard "Opsim_rawseeing" overwrite_seeing; assign_seeing v

  unfoldable pub set_site : Option (Site N) → Method N A
  set_site v = modify (λ o. record o { site = v })

  unfoldable pub set_sky_brightness : Option Object → Method N A
  set_sky_brightness v = modify (λ o. record o { sky_brightness = v })

  -- A date, or a float that is read as TAI; `ints` says whether an int is taken too.
  unfoldable pub mjd_of : Bool → MjdValue N A → Result ObservationError (ModifiedJulianDate N A)
  mjd_of ints (date m) = ok m
  mjd_of ints (plain x) =
      if is_float x || (if ints then is_int x else false) then ok (from_tai N A x) else err mjd_type

  unfoldable pub set_mjd : MjdValue N A → Method N A
  unfolding guard mjd_of
  set_mjd v = do
    guard "Opsim_expmjd" overwrite_mjd
    m ← evaluate (λ _. mjd_of false v)
    modify (λ o. record o { mjd = some m })

  unfoldable pub set_bandpass_m5_and_seeing :
      Option Object → Option Object → Option Object → Method N A
  unfolding guard set_m5 assign_seeing
  set_bandpass_m5_and_seeing bandpass_name m5 seeing = do
    guard "Opsim_filter" overwrite_bandpass
    guard "Opsim_rawseeing" overwrite_seeing
    modify (λ o. record o { bandpass = bandpass_name })
    set_m5 m5
    assign_seeing seeing

  -- What the setter of phoSimMetaData clears before it assigns.
  unfoldable pub clear_for : PhoSimMetaData N → ObservationMetaData N A → ObservationMetaData N A
  clear_for d o = record o {
    pointing_ra = if has_key "pointingRA" d then none else o.pointing_ra;
    pointing_dec = if has_key "pointingDec" d then none else o.pointing_dec;
    rot_sky_pos = if has_key "Opsim_rotskypos" d then none else o.rot_sky_pos;
    mjd = if has_key "Opsim_expmjd" d then none else o.mjd;
    bandpass = if has_key "Opsim_filter" d then none else o.bandpass;
    m5 = if has_key "Opsim_filter" d then none else o.m5;
    seeing = if has_key "Opsim_filter" d then none else o.seeing;
  }

  -- `'pointingRA' in None` raises.
  unfoldable pub set_pho_sim_meta_data : Option (PhoSimMetaData N) → Method N A
  unfolding clear_for
  set_pho_sim_meta_data none o = (err not_a_dict, o)
  set_pho_sim_meta_data (some d) o = assign_pho_sim_meta_data N A d (clear_for d o)

  -- The fields that the constructor sets from its arguments before it calls a method.
  unfoldable pub initial : ObservationArgs N A → ObservationMetaData N A
  initial a = record {
    bounds = none;
    bound_type = a.bound_type;
    bandpass = a.bandpass_name;
    sky_brightness = a.sky_brightness;
    site = a.site;
    epoch = a.epoch;
    mjd = none;
    rot_sky_pos = where_given N radians a.rot_sky_pos;
    pointing_ra = where_given N radians a.pointing_ra;
    pointing_dec = where_given N radians a.pointing_dec;
    bound_length = where_given N radians a.bound_length;
    pho_sim_meta_data = none;
    m5 = none;
    seeing = none;
  }

  unfoldable pub initial_mjd : Option (MjdValue N A) → Method N A
  unfolding mjd_of
  initial_mjd none = pure tt
  initial_mjd (some v) = do
    m ← evaluate (λ _. mjd_of true v)
    modify (λ o. record o { mjd = some m })

  unfoldable pub initial_pho_sim : Option (PhoSimMetaData N) → Method N A
  initial_pho_sim none = pure tt
  initial_pho_sim (some d) = assign_pho_sim_meta_data N A d

  unfoldable pub build_missing_bounds : Method N A
  build_missing_bounds o = if is_some o.bounds then (ok tt, o) else build_bounds N A o

  -- The assignments of m5 and seeing in `__init__`.
  unfoldable pub initial_m5_and_seeing : Option Object → Option Object → Method N A
  unfolding set_m5 assign_seeing
  initial_m5_and_seeing m5 seeing = do set_m5 m5; assign_seeing seeing

  -- `__init__` up to phoSimMetaData.
  unfoldable pub initial_arguments : ObservationArgs N A → Method N A
  unfolding initial_mjd initial_pho_sim
  initial_arguments a = do initial_mjd a.mjd; initial_pho_sim a.pho_sim_meta_data

  -- The calls of `__init__`; where one raises there is no object.
  unfoldable pub initialise : ObservationArgs N A → Method N A
  unfolding initial_arguments initial_m5_and_seeing build_missing_bounds
  initialise a = do initial_arguments a; initial_m5_and_seeing a.m5 a.seeing; build_missing_bounds

  unfoldable pub observation_meta_data :
      ObservationArgs N A → Result ObservationError (ObservationMetaData N A)
  observation_meta_data a =
      let (r, o) = initialise a (initial a) in elim r [ ok _ ↦ ok o | err e ↦ err e ]
