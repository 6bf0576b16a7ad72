-- ===== src/Compound/Rotator.antt =====
-- `_getRotSkyPos` and `_getRotTelPos`: between the angle of the camera rotator and that of the
-- field of view.
use sims_utils.Base.Action.{◌>>=◌, pure}
use sims_utils.Numpy.{Numpy}
use sims_utils.Astropy.{Astropy}
use sims_utils.Palpy.{Palpy}
use sims_utils.Palpy.Places.{Places}
use sims_utils.Astrometry.Actions.{bad_shapes, or_else}
use sims_utils.Astrometry.Observed.{Maybe}
use sims_utils.Compound.Angles.{Angles, each, between}
use sims_utils.Compound.Horizon.{alt_az_pa_from_ra_dec_radians}

module _ (N : Numpy) where
  open N use {Object, literal, mul, mod_, pi}

  -- `x % (2.*np.pi)`
  abbrev pub full_turn : Object → Object
  full_turn x = mod_ x (mul (literal "2.") pi)

module _ (N : Numpy) (A : Astropy N) (P : Places N) (Q : Palpy N) where
  open N use {Object, add, sub, radians, degrees}

  -- `_getRotSkyPos`, in radians
  unfoldable pub get_rot_sky_pos_radians :
      Angles Object → Angles Object → Angles Object → Maybe N A P (Angles Object)
  unfolding alt_az_pa_from_ra_dec_radians
  get_rot_sky_pos_radians ra dec rot_tel = do
    h ← alt_az_pa_from_ra_dec_radians N A P Q ra dec
    r ← or_else bad_shapes (between sub rot_tel h.2)
    pure (each (full_turn N) r)

  unfoldable pub get_rot_sky_pos :
      Angles Object → Angles Object → Angles Object → Maybe N A P (Angles Object)
  unfolding get_rot_sky_pos_radians
  get_rot_sky_pos ra dec rot_tel = do
    r ← get_rot_sky_pos_radians (each radians ra) (each radians dec) (each radians rot_tel)
    pure (each degrees r)

  -- `_getRotTelPos`, in radians
  unfoldable pub get_rot_tel_pos_radians :
      Angles Object → Angles Object → Angles Object → Maybe N A P (Angles Object)
  unfolding alt_az_pa_from_ra_dec_radians
  get_rot_tel_pos_radians ra dec rot_sky = do
    h ← alt_az_pa_from_ra_dec_radians N A P Q ra dec
    r ← or_else bad_shapes (between add rot_sky h.2)
    pure (each (full_turn N) r)

  unfoldable pub get_rot_tel_pos :
      Angles Object → Angles Object → Angles Object → Maybe N A P (Angles Object)
  unfolding get_rot_tel_pos_radians
  get_rot_tel_pos ra dec rot_sky = do
    r ← get_rot_tel_pos_radians (each radians ra) (each radians dec) (each radians rot_sky)
    pure (each degrees r)
