-- ===== src/Compound/Triangle.antt =====
-- The spherical triangle in the middle of `_raDecFromAltAz`, of numbers and of arrays.
use sims_utils.Base.{◌||◌, map, if◌then◌else◌}
use sims_utils.Base.Result.{Result, ok, or_raise, ◌>>=◌}
use sims_utils.Numpy.{Numpy}
use sims_utils.Astrometry.Actions.{AstrometryError, bad_shapes}
use sims_utils.Compound.Angles.{Angles, single, column, each, between}

module _ (N : Numpy) where
  open N use {
    Object, literal, add, sub, mul, div, lt, eq, pi, radians, sin, cos, arcsin, arccos, sign,
    is_nan,
  }

  -- `haRad0`: the arccosine, and where it is NaN the angle on the side of the sign; the two
  -- branches write this for an array and for a number.
  unfoldable pub column_angle : Object → Object
  column_angle c =
      if is_nan (arccos c)
      then mul (mul (literal "0.5") pi) (sub (literal "1.0") (sign c))
      else arccos c

  unfoldable pub single_angle : Object → Object
  single_angle c =
      if is_nan (arccos c)
      then if lt (literal "0.0") (sign c) then literal "0.0" else pi
      else arccos c

  unfoldable pub hour_angle : Angles Object → Angles Object
  unfolding column_angle single_angle
  hour_angle (single c) = single (single_angle c)
  hour_angle (column cs) = column (map column_angle cs)

  -- `np.where(np.sin(azRad) >= 0.0, -1.0*haRad0, haRad0)` of one item
  unfoldable pub east_or_west : Object → Object → Object
  east_or_west az ha =
      if lt (literal "0.0") (sin az) || eq (literal "0.0") (sin az)
      then mul (literal "-1.0") ha
      else ha

  -- An operator that numpy may refuse
  abbrev pub Computed : Type 0 → Type 0
  Computed X = Result AstrometryError X

  abbrev pub numpy_between :
      (Object → Object → Object) → Angles Object → Angles Object → Computed (Angles Object)
  numpy_between f x y = or_raise (between f x y) bad_shapes

  -- `decObs`, with the sine and the cosine of the latitude
  unfoldable pub dec_above :
      Object → Object → Angles Object → Angles Object → Computed (Angles Object)
  dec_above sin_lat cos_lat alt az = do
    across ← numpy_between mul (each (mul cos_lat) (each cos alt)) (each cos az)
    sin_dec ← numpy_between add (each (mul sin_lat) (each sin alt)) across
    ok (each arcsin sin_dec)

  -- `costheta`
  unfoldable pub cos_theta :
      Object → Object → Angles Object → Angles Object → Computed (Angles Object)
  cos_theta sin_lat cos_lat alt dec = do
    above ← numpy_between sub (each sin alt) (each (λ d. mul (sin d) sin_lat) dec)
    numpy_between div above (each (λ d. mul (cos d) cos_lat) dec)

  -- `raObs` and `decObs`
  unfoldable pub observed_at :
      Object → Object → Angles Object → Angles Object → Computed (Angles Object × Angles Object)
  unfolding dec_above cos_theta hour_angle east_or_west
  observed_at last latitude alt az = do
    dec ← dec_above (sin latitude) (cos latitude) alt az
    c ← cos_theta (sin latitude) (cos latitude) alt dec
    ha ← numpy_between east_or_west az (hour_angle c)
    ok (each (sub (radians (mul last (literal "15.")))) ha, dec)
