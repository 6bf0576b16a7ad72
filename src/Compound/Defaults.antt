-- ===== src/Compound/Defaults.antt =====
-- `calcObsDefaults`: the metadata that PhoSim expects.
use sims_utils.Base.{String, [], ◌∷◌}
use sims_utils.Base.Result.{Result}
use sims_utils.Base.Action.{◌>>=◌, evaluate, pure}
use sims_utils.Base.Dict.{Dict}
use sims_utils.Numpy.{Numpy}
use sims_utils.Arrays.{Value, number, array, sequence}
use sims_utils.Astropy.{Astropy}
use sims_utils.Palpy.{Palpy}
use sims_utils.Palpy.Places.{Places}
use sims_utils.Coordinates.Vectors.{haversine}
use sims_utils.Compound.Angles.{Angles, single, column}
use sims_utils.Compound.Horizon.{ra_dec_from_alt_az_radians}
use sims_utils.Compound.Rotator.{get_rot_sky_pos_radians}
use sims_utils.Compound.Temporary.{
  ParamsError, haversine_raised, raised, Asking, asked, on_temporary,
}

-- An argument of `haversine`, and what it returns, which is no Python list
abbrev pub as_value : {A : Type 0} → Angles A → Value A
as_value (single x) = number x
as_value (column xs) = array xs

abbrev pub as_angles : {A : Type 0} → Value A → Angles A
as_angles (number x) = single x
as_angles (array xs) = column xs
as_angles (sequence xs) = column xs

module _ (N : Numpy) (A : Astropy N) (P : Places N) (Q : Palpy N) where
  open N use {Object, literal, neg, div, pi}

  -- The arguments of `calcObsDefaults` beside the date and the observatory. The band is any object.
  pub record Aim : Type 0 where
    pub ra : Angles Object
    pub dec : Angles Object
    pub alt : Angles Object
    pub az : Angles Object
    pub rot_tel : Angles Object
    pub band : Object

  abbrev pub Metadata : Type 0
  Metadata = Dict String (Angles Object)

  -- `-np.pi/2.`
  abbrev pub nadir : Angles Object
  nadir = single (div (neg pi) (literal "2."))

  -- The entries of `obsMd`, in the order of the assignments.
  unfoldable pub entries :
      Aim → Angles Object → Angles Object → Angles Object → Angles Object → Metadata
  entries a moon_ra moon_dec dist rot_sky =
      ("Opsim_moonra", moon_ra)
      ∷ ("Opsim_moondec", moon_dec)
      ∷ ("Opsim_sunalt", nadir)
      ∷ ("Opsim_moonalt", nadir)
      ∷ ("Opsim_dist2moon", dist)
      ∷ ("Opsim_filter", single a.band)
      ∷ ("pointingRA", a.ra)
      ∷ ("pointingDec", a.dec)
      ∷ ("Opsim_rotskypos", rot_sky)
      ∷ ("Opsim_rottelpos", a.rot_tel)
      ∷ ("Unrefracted_Altitude", a.alt)
      ∷ ("Unrefracted_Azimuth", a.az)
      ∷ []

  -- The body, once `obsTemp` is there
  unfoldable pub measured : Aim → Asking N A Metadata
  unfolding entries ra_dec_from_alt_az_radians get_rot_sky_pos_radians
  measured a = do
    moon ← asked N A (ra_dec_from_alt_az_radians N A P Q nadir (single (literal "0.")))
    dist ← evaluate (λ _.
        raised haversine_raised
          (haversine N (as_value moon.0) (as_value moon.1) (as_value a.ra) (as_value a.dec)))
    rot_sky ← asked N A (get_rot_sky_pos_radians N A P Q a.ra a.dec a.rot_tel)
    pure (entries a moon.0 moon.1 (as_angles dist) rot_sky)

  unfoldable pub calc_obs_defaults : Aim → Object → Object → Object → Result ParamsError Metadata
  unfolding measured on_temporary
  calc_obs_defaults a mjd long lat = on_temporary N A mjd long lat (measured a)
