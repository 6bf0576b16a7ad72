-- ===== src/Astrometry/Observed.antt =====
-- Observed places: the atmosphere, the observatory, and the chain from the mean places.
use sims_utils.Base.{
  String, Bool, true, false, not, Option, none, some, List, map, length, is_some, ◌==◌,
  if◌then◌else◌,
}
use sims_utils.Base.Result.{or_raise}
use sims_utils.Base.Action.{Action, ◌>>=◌, ◌>>◌, raise_when, evaluate, pure}
use sims_utils.Numpy.{Numpy}
use sims_utils.Astropy.{Astropy}
use sims_utils.Palpy.Places.{Places}
use sims_utils.Mjd.{utc, dut1}
use sims_utils.Site.{Site}
use sims_utils.Observation.State.{ObservationMetaData}
use sims_utils.Astrometry.Actions.{
  AstrometryError, no_obs_metadata, no_site, no_mjd, no_epoch, lengths_differ, no_attribute,
  palpy_raised, or_else, unless_none, on_some, on_mjd, read_scale,
}
use sims_utils.Astrometry.Apparent.{
  Columns, in_degrees, from_arcsec, app_geo_from_icrs_radians, icrs_from_app_geo_radians,
}

module _ (N : Numpy) (A : Astropy N) (P : Places N) where
  open N use {Object, literal, radians, degrees}
  open P use {aoppa, aopqk_vector, oapqk_vector, de2h_vector}

  -- A function of an observation that is there, and of one that may be `None`.
  abbrev pub Observing : Type 0 → Type 0
  Observing X = Action (ObservationMetaData N A) AstrometryError X

  abbrev pub Maybe : Type 0 → Type 0
  Maybe X = Action (Option (ObservationMetaData N A)) AstrometryError X

  -- The call of `palpy.aoppa` in `_calculateObservatoryParameters`.
  unfoldable pub site_parameters : Bool → Site N → Object → Object → Object → Option (List Object)
  site_parameters include_refraction s utc_mjd offset wavelength =
      if include_refraction
      then aoppa utc_mjd offset s.longitude_rad s.latitude_rad s.height (literal "0.0")
          (literal "0.0") s.temperature_kelvin s.pressure s.humidity wavelength s.lapse_rate
      else aoppa utc_mjd offset s.longitude_rad s.latitude_rad s.height (literal "0.0")
          (literal "0.0") s.temperature (some (literal "0.0")) (some (literal "0.0")) wavelength
          s.lapse_rate

  -- `obs_metadata.site`, where an attribute of it is read
  abbrev pub the_site : Observing (Site N)
  the_site = evaluate (λ o. or_raise o.site no_attribute)

  unfoldable pub calculate_observatory_parameters : Object → Bool → Observing (List Object)
  unfolding read_scale
  calculate_observatory_parameters wavelength include_refraction = do
    utc_mjd ← on_mjd N A (read_scale N A utc)
    offset ← on_mjd N A (read_scale N A dut1)
    s ← the_site
    or_else palpy_raised (site_parameters include_refraction s utc_mjd offset wavelength)

  -- The altitude and azimuth that `altAzHr` asks for.
  unfoldable pub alt_az : Bool → List Object → List Object → Observing (Option (Columns N A P))
  alt_az false ha dec = pure none
  alt_az true ha dec = do
    s ← the_site
    r ← or_else palpy_raised (de2h_vector ha dec s.latitude_rad)
    pure (some (r.1, r.0))

  -- What a function of observed places asks of an observation and of its arrays before it begins.
  unfoldable pub observes : String → List Object → List Object → Observing Unit
  observes name ra dec = do
    raise_when (λ o. not (is_some o.site)) (no_site name)
    raise_when (λ o. not (is_some o.mjd)) (no_mjd name)
    raise_when (λ _. not (length ra == length dec)) (lengths_differ name)

  -- `palpy.aopqkVector` and what follows it
  unfoldable pub places_in :
      List Object
      → List Object
      → Bool
      → List Object
      → Observing (Columns N A P × Option (Columns N A P))
  unfolding alt_az
  places_in ra dec alt_az_hr prms = do
    places ← or_else palpy_raised (aopqk_vector ra dec prms)
    horizon ← alt_az alt_az_hr places.2 places.3
    pure ((places.4, places.3), horizon)

  -- `_observedFromAppGeo`, in radians
  unfoldable pub observed_from_app_geo_radians :
      List Object
      → List Object
      → Bool
      → Bool
      → Object
      → Maybe (Columns N A P × Option (Columns N A P))
  unfolding observes calculate_observatory_parameters places_in
  observed_from_app_geo_radians ra dec include_refraction alt_az_hr wavelength =
      unless_none (no_obs_metadata "observedFromAppGeo") (do
        observes "observedFromAppGeo" ra dec
        prms ← calculate_observatory_parameters wavelength include_refraction
        places_in ra dec alt_az_hr prms)

  -- `numpy.degrees` of the second array, if there is one
  unfoldable pub horizon_in_degrees : Option (Columns N A P) → Option (Columns N A P)
  horizon_in_degrees none = none
  horizon_in_degrees (some c) = some (in_degrees N A P c)

  unfoldable pub observed_from_app_geo :
      List Object
      → List Object
      → Bool
      → Bool
      → Object
      → Maybe (Columns N A P × Option (Columns N A P))
  unfolding observed_from_app_geo_radians horizon_in_degrees
  observed_from_app_geo ra dec include_refraction alt_az_hr wavelength = do
    r ←
        observed_from_app_geo_radians (map radians ra) (map radians dec) include_refraction
          alt_az_hr wavelength
    pure (in_degrees N A P r.0, horizon_in_degrees r.1)

  -- `_appGeoFromObserved`, in radians
  unfoldable pub app_geo_from_observed_radians :
      List Object → List Object → Bool → Object → Maybe (Columns N A P)
  unfolding observes calculate_observatory_parameters
  app_geo_from_observed_radians ra dec include_refraction wavelength =
      unless_none (no_obs_metadata "appGeoFromObserved") (do
        observes "appGeoFromObserved" ra dec
        prms ← calculate_observatory_parameters wavelength include_refraction
        or_else palpy_raised (oapqk_vector "r" ra dec prms))

  unfoldable pub app_geo_from_observed :
      List Object → List Object → Bool → Object → Maybe (Columns N A P)
  unfolding app_geo_from_observed_radians
  app_geo_from_observed ra dec include_refraction wavelength = do
    r ←
        app_geo_from_observed_radians (map radians ra) (map radians dec) include_refraction
          wavelength
    pure (in_degrees N A P r)

  -- `if epoch is None: raise`
  abbrev pub the_epoch : Option Object → String → Observing Object
  the_epoch epoch name = evaluate (λ _. or_raise epoch (no_epoch name))

  -- What the chain from or to mean places asks of the observation, of the epoch and of its arrays.
  unfoldable pub epoch_for : String → Option Object → List Object → List Object → Observing Object
  epoch_for name epoch ra dec = do
    raise_when (λ o. not (is_some o.mjd)) (no_mjd name)
    year ← the_epoch epoch name
    raise_when (λ _. not (length ra == length dec)) (lengths_differ name)
    pure year

  -- The call of `_observedFromAppGeo` on what `_appGeoFromICRS` gives
  unfoldable pub observed_next : Bool → Columns N A P → Observing (Columns N A P)
  unfolding observed_from_app_geo_radians
  observed_next include_refraction apparent = do
    observed ← on_some (
        observed_from_app_geo_radians apparent.0 apparent.1 include_refraction false
          (literal "0.5"))
    pure observed.0

  -- `_observedFromICRS`, in radians; its calls leave the wavelength at 0.5.
  unfoldable pub observed_from_icrs_radians :
      List Object
      → List Object
      → Option (List Object)
      → Option (List Object)
      → Option (List Object)
      → Option (List Object)
      → Option Object
      → Bool
      → Maybe (Columns N A P)
  unfolding app_geo_from_icrs_radians epoch_for observed_next
  observed_from_icrs_radians ra dec pm_ra pm_dec parallax v_rad epoch include_refraction =
      unless_none (no_obs_metadata "observedFromICRS") (do
        year ← epoch_for "observedFromICRS" epoch ra dec
        apparent ←
            on_mjd N A (app_geo_from_icrs_radians N A P ra dec pm_ra pm_dec parallax v_rad year)
        observed_next include_refraction apparent)

  unfoldable pub observed_from_icrs :
      List Object
      → List Object
      → Option (List Object)
      → Option (List Object)
      → Option (List Object)
      → Option (List Object)
      → Option Object
      → Bool
      → Maybe (Columns N A P)
  unfolding observed_from_icrs_radians from_arcsec
  observed_from_icrs ra dec pm_ra pm_dec parallax v_rad epoch include_refraction = do
    r ←
        observed_from_icrs_radians (map radians ra) (map radians dec) (from_arcsec N A P pm_ra)
          (from_arcsec N A P pm_dec) (from_arcsec N A P parallax) v_rad epoch include_refraction
    pure (in_degrees N A P r)

  -- `_icrsFromObserved`, in radians
  unfoldable pub icrs_from_observed_radians :
      List Object → List Object → Option Object → Bool → Maybe (Columns N A P)
  unfolding epoch_for app_geo_from_observed_radians icrs_from_app_geo_radians
  icrs_from_observed_radians ra dec epoch include_refraction =
      unless_none (no_obs_metadata "icrsFromObserved") (do
        year ← epoch_for "icrsFromObserved" epoch ra dec
        apparent ← on_some (app_geo_from_observed_radians ra dec include_refraction (literal "0.5"))
        on_mjd N A (icrs_from_app_geo_radians N A P apparent.0 apparent.1 year))

  unfoldable pub icrs_from_observed :
      List Object → List Object → Option Object → Bool → Maybe (Columns N A P)
  unfolding icrs_from_observed_radians
  icrs_from_observed ra dec epoch include_refraction = do
    r ← icrs_from_observed_radians (map radians ra) (map radians dec) epoch include_refraction
    pure (in_degrees N A P r)
