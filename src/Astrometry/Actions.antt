-- ===== src/Astrometry/Actions.antt =====
-- The exceptions of the astrometry, and what it does to the objects that it is given: a read of a
-- date may fill the date's cache.
use sims_utils.Base.{String, Option, none, some}
use sims_utils.Base.Result.{ok, err, or_raise}
use sims_utils.Base.Action.{Action}
use sims_utils.Numpy.{Numpy}
use sims_utils.Astropy.{Astropy}
use sims_utils.Mjd.{ModifiedJulianDate, Scale, read}
use sims_utils.Observation.State.{ObservationMetaData}
use sims_utils.Coordinates.{LengthError}

-- Those that the code raises carry the function that their text names.
pub data AstrometryError : Type 0 where
  no_obs_metadata no_site no_mjd no_epoch : String → AstrometryError
  lengths_differ is_list no_rot_sky_pos no_pointing : String → AstrometryError
  -- the function, and the argument that is one number beside an array
  only_one : String → String → AstrometryError
  no_sidereal_time : LengthError → AstrometryError
  -- arithmetic on `None`, an attribute of `None`, an undefined name, arrays that do not fit, an exception of palpy,
  -- arguments that are no arrays
  no_number no_attribute undefined_name bad_shapes palpy_raised no_array : AstrometryError

-- The object, or what a call has left of it.
abbrev pub kept : {S : Type 0} → S → Option S → S
kept s none = s
kept s (some s') = s'

module _ {S E X : Type 0} where
  -- `if x is None: raise e`
  abbrev pub unless_none : E → Action S E X → Action (Option S) E X
  unless_none e m none = (err e, none)
  unless_none e m (some s) = let (r, s') = m s in (r, some s')

  -- A call on an object that is there of a function that also takes `None`.
  abbrev pub on_some : Action (Option S) E X → Action S E X
  on_some m s = let (r, s') = m (some s) in (r, kept s s')

module _ {S X : Type 0} where
  -- What palpy or numpy may refuse.
  abbrev pub or_else : AstrometryError → Option X → Action S AstrometryError X
  or_else e x s = (or_raise x e, s)

module _ (N : Numpy) (A : Astropy N) where
  -- `mjd.TDB` and the other properties; the warnings are not kept.
  unfoldable pub read_scale :
      Scale → Action (Option (ModifiedJulianDate N A)) AstrometryError N.Object
  read_scale q none = (err no_attribute, none)
  read_scale q (some m) = let (x, m', warned) = read N A q m in (ok x, some m')

  -- A function of the date of an observation.
  abbrev pub on_mjd :
      {X : Type 0}
      → Action (Option (ModifiedJulianDate N A)) AstrometryError X
      → Action (ObservationMetaData N A) AstrometryError X
  on_mjd m o = let (r, d) = m o.mjd in (r, record o { mjd = d })
