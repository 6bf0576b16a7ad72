-- ===== src/Site.antt =====
-- python/lsst/sims/utils/Site.py: the description of an observatory, with the LSST values for what
-- a site of that name leaves open.
pub mod Defaults
use sims_utils.Base.{
  String, Bool, true, ◌&&◌, ◌||◌, not, Option, none, some, List, [], ◌∷◌, ◌++◌, str_eq, is_some,
  if◌then◌else◌,
}
use sims_utils.Base.Result.{Result, ok, err, ◌>>=◌, ◌>>◌, raise_if}
use sims_utils.Numpy.{Numpy}

-- A text argument. `x is 'LSST'` compares objects, and holds of an equal text only if Python
-- keeps one object for both, as it does for literals.
pub record Text : Type 0 where
  pub text : String
  pub interned : Bool

-- The checks at the end of `Site.__init__`, one constructor for each `raise`.
pub data SiteError : Type 0 where
  longitude_only longitude_rad_only latitude_only latitude_rad_only : SiteError
  temperature_only temperature_kelvin_only : SiteError

module _ (N : Numpy) where
  open N use {Object, literal, add, radians}

  -- `LSST_site_parameters`
  pub record LsstSiteParameters : Type 0 where
    pub longitude : Object
    pub latitude : Object
    pub height : Object
    pub temperature : Object
    pub pressure : Object
    pub humidity : Object
    pub lapse_rate : Object

  unfoldable pub lsst_site_parameters : LsstSiteParameters
  lsst_site_parameters = record {
    longitude = literal "-70.7494";
    latitude = literal "-30.2444";
    height = literal "2650.0";
    temperature = literal "11.5";
    pressure = literal "750.0";
    humidity = literal "0.4";
    lapse_rate = literal "0.0065";
  }

  -- The keyword arguments of `Site`; `none` is `None`.
  pub record SiteArgs : Type 0 where
    pub name : Option Text
    pub longitude : Option Object
    pub latitude : Option Object
    pub height : Option Object
    pub temperature : Option Object
    pub pressure : Option Object
    pub humidity : Option Object
    pub lapse_rate : Option Object

  pub record Site : Type 0 where
    pub name : Option Text
    pub longitude_rad : Option Object
    pub latitude_rad : Option Object
    pub longitude : Option Object
    pub latitude : Option Object
    pub height : Option Object
    pub pressure : Option Object
    pub temperature_kelvin : Option Object
    pub temperature : Option Object
    pub humidity : Option Object
    pub lapse_rate : Option Object

  -- `self._name is 'LSST'`
  unfoldable pub is_lsst : Option Text → Bool
  is_lsst none = not true
  is_lsst (some t) = str_eq t.text "LSST" && t.interned

  -- `if x is None: x = d`
  unfoldable pub default_to : Object → Option Object → Option Object
  default_to d none = some d
  default_to d (some x) = some x

  -- The arguments after the defaults have been put in.
  unfoldable pub with_defaults : SiteArgs → SiteArgs
  unfolding is_lsst default_to lsst_site_parameters
  with_defaults a =
      let d = lsst_site_parameters in
      if is_lsst a.name
      then record {
        name = a.name;
        longitude = default_to d.longitude a.longitude;
        latitude = default_to d.latitude a.latitude;
        height = default_to d.height a.height;
        temperature = default_to d.temperature a.temperature;
        pressure = default_to d.pressure a.pressure;
        humidity = default_to d.humidity a.humidity;
        lapse_rate = default_to d.lapse_rate a.lapse_rate;
      }
      else a

  -- `f(x)` where `x` is not `None`
  unfoldable pub where_given : (Object → Object) → Option Object → Option Object
  where_given f none = none
  where_given f (some x) = some (f x)

  -- The assignments to the fields.
  unfoldable pub assign : SiteArgs → Site
  unfolding where_given
  assign a = record {
    name = a.name;
    longitude_rad = where_given radians a.longitude;
    latitude_rad = where_given radians a.latitude;
    longitude = a.longitude;
    latitude = a.latitude;
    height = a.height;
    pressure = a.pressure;
    temperature_kelvin = where_given (λ t. add t (literal "273.15")) a.temperature;
    temperature = a.temperature;
    humidity = a.humidity;
    lapse_rate = a.lapse_rate;
  }

  -- One of the three checks of a field against its second unit: `first` is the error raised
  -- where only `x` is there and `second` the one where only `y` is.
  unfoldable pub check_units :
      Option Object → Option Object → SiteError → SiteError → Result SiteError Bool
  check_units none none first second = ok true
  check_units (some x) none first second = err first
  check_units none (some y) first second = err second
  check_units (some x) (some y) first second = ok (not true)

  abbrev named_if : Bool → String → List String
  named_if missing name = if missing then name ∷ [] else []

  -- The names that `list_of_nones` collects.
  unfoldable pub list_of_nones : Site → Result SiteError (List String)
  unfolding check_units
  list_of_nones s = do
    longitude ← check_units s.longitude s.longitude_rad longitude_only longitude_rad_only
    latitude ← check_units s.latitude s.latitude_rad latitude_only latitude_rad_only
    temperature ←
        check_units s.temperature s.temperature_kelvin temperature_only temperature_kelvin_only
    ok (
        named_if longitude "longitude"
        ++ (named_if latitude "latitude"
            ++ (named_if temperature "temperature"
                ++ (named_if (not (is_some s.height)) "height"
                    ++ (named_if (not (is_some s.pressure)) "pressure"
                        ++ (named_if (not (is_some s.humidity)) "humidity"
                            ++ named_if (not (is_some s.lapse_rate)) "lapseRate"))))))

  -- `Site(...)`: the object, and the names that the warning lists (no warning if there is none).
  unfoldable pub site : SiteArgs → Result SiteError (Site × List String)
  unfolding with_defaults assign list_of_nones
  site a = let s = assign (with_defaults a) in list_of_nones s >>= λ names. ok (s, names)
