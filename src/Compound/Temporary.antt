-- ===== src/Compound/Temporary.antt =====
-- `obsTemp` of CompoundCoordinateTransformations.py: an observation at the LSST site, which is made
-- for one call and is asked in it.
use sims_utils.Base.{true, Option, none, some}
use sims_utils.Base.Result.{Result, ok, err, ◌>>=◌}
use sims_utils.Base.Action.{Action}
use sims_utils.Numpy.{Numpy}
use sims_utils.Astropy.{Astropy}
use sims_utils.Coordinates.Vectors.{VectorError}
use sims_utils.Site.{SiteError, SiteArgs, Site, site}
use sims_utils.Observation.State.{ObservationError, plain, ObservationMetaData, ObservationArgs}
use sims_utils.Observation.Methods.{observation_meta_data}
use sims_utils.Astrometry.Actions.{AstrometryError}

-- The exceptions of the parts, and that of a call with the wrong number of arguments.
pub data ParamsError : Type 0 where
  site_raised : SiteError → ParamsError
  observation_raised : ObservationError → ParamsError
  astrometry_raised : AstrometryError → ParamsError
  haversine_raised : VectorError → ParamsError
  wrong_arguments : ParamsError

abbrev pub raised {ℓ} :
    {E : Type 0} {X : Type ℓ} → (E → ParamsError) → Result E X → Result ParamsError X
raised f (ok x) = ok x
raised f (err e) = err (f e)

module _ (N : Numpy) (A : Astropy N) where
  open N use {Object, literal, degrees}

  -- What is asked of `obsTemp`.
  abbrev pub Asking : Type 0 → Type 0
  Asking X = Action (Option (ObservationMetaData N A)) ParamsError X

  abbrev pub asked :
      {X : Type 0} → Action (Option (ObservationMetaData N A)) AstrometryError X → Asking X
  asked m o = let (r, o') = m o in (raised astrometry_raised r, o')

  -- `Site(longitude=np.degrees(longRad), latitude=np.degrees(latRad), name='LSST')`; the literal
  -- and that in Site.py are one object.
  unfoldable pub temporary_site : Object → Object → SiteArgs N
  temporary_site long lat = record {
    name = some (record { text = "LSST"; interned = true });
    longitude = some (degrees long);
    latitude = some (degrees lat);
    height = none;
    temperature = none;
    pressure = none;
    humidity = none;
    lapse_rate = none;
  }

  -- `mjd=mjd, site=...`; the date is a number.
  unfoldable pub temporary_arguments : Object → Site N → ObservationArgs N A
  temporary_arguments mjd s = record {
    bound_type = none;
    bound_length = none;
    mjd = some (plain mjd);
    pointing_ra = none;
    pointing_dec = none;
    rot_sky_pos = none;
    bandpass_name = none;
    pho_sim_meta_data = none;
    site = some s;
    m5 = none;
    sky_brightness = none;
    seeing = none;
    epoch = literal "2000.0";
  }

  unfoldable pub temporary_observation :
      Object → Object → Object → Result ParamsError (ObservationMetaData N A)
  unfolding temporary_site temporary_arguments
  temporary_observation mjd long lat = do
    s ← raised site_raised (site N (temporary_site long lat))
    raised observation_raised (observation_meta_data N A (temporary_arguments mjd s.0))

  -- A call that makes `obsTemp` and asks it.
  unfoldable pub on_temporary :
      {X : Type 0} → Object → Object → Object → Asking X → Result ParamsError X
  unfolding temporary_observation
  on_temporary mjd long lat m = do o ← temporary_observation mjd long lat; (m (some o)).0
