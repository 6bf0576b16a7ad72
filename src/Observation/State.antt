-- ===== src/Observation/State.antt =====
-- The fields of an ObservationMetaData, its exceptions, and the values that its methods take.
use sims_utils.Base.{String, Option}
use sims_utils.Base.Dict.{Dict}
use sims_utils.Numpy.{Numpy}
use sims_utils.Astropy.{Astropy}
use sims_utils.Bounds.{Bounds}
use sims_utils.Bounds.Errors.{BoundsError}
use sims_utils.Mjd.{ModifiedJulianDate}
use sims_utils.Site.{Site}

-- One constructor for each `raise`; `overwrite_…` are those about phoSimMetaData.
pub data ObservationError : Type 0 where
  mjd_type : ObservationError
  overwrite_mjd overwrite_rot_sky_pos overwrite_bandpass overwrite_seeing : ObservationError
  overwrite_pointing_ra overwrite_pointing_dec : ObservationError
  dec_without_ra ra_without_dec : ObservationError
  no_bandpass bandpass_list_only value_list_only lengths_differ : ObservationError
  not_a_dict : ObservationError
  no_bounds : BoundsError → ObservationError

-- phoSimMetaData: each key with the first item of its tuple, the only one that is read.
abbrev pub PhoSimMetaData : Numpy → Type 0
PhoSimMetaData N = Dict String N.Object

-- m5 or seeing by bandpass.
abbrev pub ByBandpass : Numpy → Type 0
ByBandpass N = Dict N.Object N.Object

module _ (N : Numpy) (A : Astropy N) where
  open N use {Object}

  -- What may be passed as `mjd`: a date, or another object.
  pub data MjdValue : Type 0 where
    date : ModifiedJulianDate N A → MjdValue
    plain : Object → MjdValue

  -- The fields without their underscore; `none` is `None`, and also an attribute that
  -- `__init__` has not set yet.
  pub record ObservationMetaData : Type 0 where
    pub bounds : Option (Bounds N)
    pub bound_type : Option String
    pub bandpass : Option Object
    pub sky_brightness : Option Object
    pub site : Option (Site N)
    pub epoch : Object
    pub mjd : Option (ModifiedJulianDate N A)
    pub rot_sky_pos : Option Object
    pub pointing_ra : Option Object
    pub pointing_dec : Option Object
    pub bound_length : Option Object
    pub pho_sim_meta_data : Option (PhoSimMetaData N)
    pub m5 : Option (ByBandpass N)
    pub seeing : Option (ByBandpass N)

  -- The arguments of the constructor.
  pub record ObservationArgs : Type 0 where
    pub bound_type : Option String
    pub bound_length : Option Object
    pub mjd : Option MjdValue
    pub pointing_ra : Option Object
    pub pointing_dec : Option Object
    pub rot_sky_pos : Option Object
    pub bandpass_name : Option Object
    pub pho_sim_meta_data : Option (PhoSimMetaData N)
    pub site : Option (Site N)
    pub m5 : Option Object
    pub sky_brightness : Option Object
    pub seeing : Option Object
    pub epoch : Object
