-- ===== src/Site/Defaults.antt =====
-- What `Site.__init__` guarantees of the object and of its warning.
use sims_utils.Base.{
  String, ◌≡◌, refl, ap, true, Option, none, some, List, [], ◌∷◌, ◌++◌, arith, str_eq_iff, is_some,
  not, ◌∙◌, if◌then◌else◌,
}
use sims_utils.Base.Result.{ok}
use sims_utils.Numpy.{Numpy}
use sims_utils.Site.{
  SiteArgs, Site, site, is_lsst, with_defaults, assign, where_given, lsst_site_parameters,
  default_to, SiteError, check_units, list_of_nones, Text,
}

module _ (N : Numpy) where
  open N use {Object, literal, add, radians}

  -- The arguments that are left as `None`, under the names of the warning.
  unfoldable pub unspecified : SiteArgs N → List String
  unspecified a =
      (if is_some a.longitude then [] else "longitude" ∷ [])
      ++ ((if is_some a.latitude then [] else "latitude" ∷ [])
          ++ ((if is_some a.temperature then [] else "temperature" ∷ [])
              ++ ((if is_some a.height then [] else "height" ∷ [])
                  ++ ((if is_some a.pressure then [] else "pressure" ∷ [])
                      ++ ((if is_some a.humidity then [] else "humidity" ∷ [])
                          ++ (if is_some a.lapse_rate then [] else "lapseRate" ∷ []))))))

  check_units-where_given :
      (f : Object → Object) (x : Option Object) (e e' : SiteError)
      → check_units N x (where_given N f x) e e' ≡ ok (not (is_some x))
  unfolding check_units where_given
  check_units-where_given f none e e' = refl
  check_units-where_given f (some x) e e' = refl

  list_of_nones-assign : (a : SiteArgs N) → list_of_nones N (assign N a) ≡ ok (unspecified a)
  unfolding list_of_nones assign unspecified
  list_of_nones-assign a = simp check_units-where_given (ground arith)

  -- No check of `Site.__init__` ever fails: every call builds a site from its arguments and the
  -- defaults, and the warning lists exactly the attributes that are `None` after these.
  pub site-eq-ok :
      (a : SiteArgs N)
      → site N a ≡ ok (assign N (with_defaults N a), unspecified (with_defaults N a))
  unfolding site
  site-eq-ok a = rw list_of_nones-assign

  -- The arguments with every attribute filled.
  abbrev completed : SiteArgs N → SiteArgs N
  completed a = record {
    name = a.name;
    longitude = default_to N (lsst_site_parameters N).longitude a.longitude;
    latitude = default_to N (lsst_site_parameters N).latitude a.latitude;
    height = default_to N (lsst_site_parameters N).height a.height;
    temperature = default_to N (lsst_site_parameters N).temperature a.temperature;
    pressure = default_to N (lsst_site_parameters N).pressure a.pressure;
    humidity = default_to N (lsst_site_parameters N).humidity a.humidity;
    lapse_rate = default_to N (lsst_site_parameters N).lapse_rate a.lapse_rate;
  }

  with_defaults_lsst : (a : SiteArgs N) → is_lsst N a.name ≡ true → with_defaults N a ≡ completed a
  unfolding with_defaults
  with_defaults_lsst a h = rw h

  is_some-default_to : (d : Object) (x : Option Object) → is_some (default_to N d x) ≡ true
  unfolding default_to
  is_some-default_to d none = refl
  is_some-default_to d (some x) = refl

  -- An argument, or a value in its place where it was left as `None`
  unfoldable pub given_or : Option Object → Object → Object
  given_or (some x) d = x
  given_or none d = d

  default_to-given_or : (x : Option Object) (d : Object) → default_to N d x ≡ some (given_or x d)
  unfolding default_to given_or
  default_to-given_or none d = refl
  default_to-given_or (some x) d = refl

  unspecified-completed : (a : SiteArgs N) → unspecified (completed a) ≡ []
  unfolding unspecified
  unspecified-completed a = simp is_some-default_to

  is_lsst-interned :
      (a : SiteArgs N) (t : Text)
      → a.name ≡ some t
      → t.text ≡ "LSST"
      → is_lsst N a.name ≡ t.interned
  unfolding is_lsst
  is_lsst-interned a t named text = rw (named, is_lsst) (ground (arith, str_eq_iff t.text "LSST"))

  -- A site named by the literal 'LSST' has every attribute: an argument that was passed is kept, and
  -- for the others the site is at longitude -70.7494, latitude -30.2444 and height 2650.0, with a
  -- temperature of 11.5, a pressure of 750.0, a humidity of 0.4 and a lapse rate of 0.0065. The
  -- longitude and latitude are there in radians too, the temperature with 273.15 added, and there
  -- is no warning.
  pub lsst_site :
      (a : SiteArgs N) (t : Text)
      → a.name ≡ some t
      → t.text ≡ "LSST"
      → t.interned ≡ true
      → (s : Site N) × (site N a ≡ ok (s, []))
        × (s.longitude ≡ some (given_or a.longitude (literal "-70.7494")))
        × (s.latitude ≡ some (given_or a.latitude (literal "-30.2444")))
        × (s.height ≡ some (given_or a.height (literal "2650.0")))
        × (s.temperature ≡ some (given_or a.temperature (literal "11.5")))
        × (s.pressure ≡ some (given_or a.pressure (literal "750.0")))
        × (s.humidity ≡ some (given_or a.humidity (literal "0.4")))
        × (s.lapse_rate ≡ some (given_or a.lapse_rate (literal "0.0065")))
        × (s.longitude_rad ≡ some (radians (given_or a.longitude (literal "-70.7494"))))
        × (s.latitude_rad ≡ some (radians (given_or a.latitude (literal "-30.2444"))))
        × (s.temperature_kelvin
            ≡ some (add (given_or a.temperature (literal "11.5")) (literal "273.15")))
  unfolding assign where_given lsst_site_parameters
  lsst_site a t named text interned =
      let lsst = with_defaults_lsst a (is_lsst-interned a t named text ∙ interned) in
      let lon = default_to-given_or a.longitude (literal "-70.7494") in
      let lat = default_to-given_or a.latitude (literal "-30.2444") in
      let warm = default_to-given_or a.temperature (literal "11.5") in
      (
        assign N (completed a),
        rw (site-eq-ok, lsst, unspecified-completed a),
        lon,
        lat,
        default_to-given_or a.height (literal "2650.0"),
        warm,
        default_to-given_or a.pressure (literal "750.0"),
        default_to-given_or a.humidity (literal "0.4"),
        default_to-given_or a.lapse_rate (literal "0.0065"),
        ap (where_given N radians) lon,
        ap (where_given N radians) lat,
        ap (where_given N (λ x. add x (literal "273.15"))) warm,
      )
