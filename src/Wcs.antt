-- ===== src/Wcs.antt =====
-- python/lsst/sims/utils/WcsUtils.py: native longitude and latitude, those with the pole at the
-- pointing of the telescope. Numbers are np.float64.
pub mod Each
pub mod Sky
pub mod Untouched
pub mod Rotations
use sims_utils.Base.{Bool, Option, none, some, List, [], ◌∷◌, map, not, ◌&&◌, ◌||◌, if◌then◌else◌}
use sims_utils.Base.Result.{Result, ok, err, or_raise, ◌>>=◌}
use sims_utils.Numpy.{Numpy}
use sims_utils.Arrays.{broadcast, pair_columns}
use sims_utils.Coordinates.Vectors.{Vector, rows, dot}
use sims_utils.Astrometry.Actions.{AstrometryError, bad_shapes, no_array}

module _ (N : Numpy) where
  open N use {
    Object, literal, add, sub, mul, div, lt, eq, sin, cos, arccos, arctan2, sqrt, neg, sign, abs,
    pi, is_nan,
  }

  abbrev pub Matrix : Type 0
  Matrix = Vector N × Vector N × Vector N

  -- `np.dot` of a matrix and a vector
  unfoldable pub apply_matrix : Matrix → Vector N → Vector N
  apply_matrix (a, b, c) v = (dot N a v, dot N b v, dot N c v)

  -- `-1.0*np.cos(lat)*np.sin(lon)` and what follows
  unfoldable pub x_of : Object → Object → Object
  x_of lon lat = mul (mul (literal "-1.0") (cos lat)) (sin lon)

  unfoldable pub y_of : Object → Object → Object
  y_of lon lat = mul (cos lat) (cos lon)

  -- The two rotations to the pole at the pointing
  unfoldable pub to_native : Object → Object → Vector N → Vector N
  unfolding apply_matrix
  to_native lon_pointing lat_pointing v =
      let alpha = sub lat_pointing (mul (literal "0.5") pi) in
      let ca = cos alpha in
      let sa = sin alpha in
      let cb = cos lon_pointing in
      let sb = sin lon_pointing in
      let one = literal "1.0" in
      let zero = literal "0.0" in
      apply_matrix ((one, zero, zero), (zero, ca, sa), (zero, mul (literal "-1.0") sa, ca))
        (apply_matrix ((cb, sb, zero), (neg sb, cb, zero), (zero, zero, one)) v)

  -- and back
  unfoldable pub from_native : Object → Object → Vector N → Vector N
  unfolding apply_matrix
  from_native lon_pointing lat_pointing v =
      let alpha = sub (mul (literal "0.5") pi) lat_pointing in
      let ca = cos alpha in
      let sa = sin alpha in
      let cb = cos lon_pointing in
      let sb = sin lon_pointing in
      let one = literal "1.0" in
      let zero = literal "0.0" in
      apply_matrix ((cb, mul (literal "-1.0") sb, zero), (sb, cb, zero), (zero, zero, one))
        (apply_matrix ((one, zero, zero), (zero, ca, sa), (zero, mul (literal "-1.0") sa, ca)) v)

  -- `latOut` and `_y` of a turned vector
  unfoldable pub lat_out : Vector N → Object
  lat_out v = arctan2 v.2 (sqrt (add (mul v.0 v.0) (mul v.1 v.1)))

  unfoldable pub y_out : Vector N → Object
  unfolding lat_out
  y_out v = div v.1 (cos (lat_out v))

  -- Whether the angle of which the cosine is `y` lies on the other side.
  unfoldable pub is_beyond : Vector N → Object → Object → Bool
  is_beyond v y angle =
      let x = neg (sin angle) in
      (lt (literal "1.0e-9") (abs x) && not (eq (sign x) (sign v.0)))
      || (lt (literal "1.0e-9") (abs y) && not (eq (sign y) (sign v.1)))

  -- The longitude on the side where the vector points, or 0.0 if it is NaN: one item of an array.
  unfoldable pub sided : Vector N → Object → Object → Object
  unfolding is_beyond
  sided v y angle =
      let lon = if is_beyond v y angle then sub (mul (literal "2.0") pi) angle else angle in
      if is_nan lon then literal "0.0" else lon

  -- The same of a number, where NaN is looked for first.
  unfoldable pub sided_number : Vector N → Object → Object → Object
  unfolding is_beyond
  sided_number v y angle =
      if is_nan angle
      then literal "0.0"
      else if is_beyond v y angle
      then sub (mul (literal "2.0") pi) angle
      else angle

  -- `_ra` in an array: where `_y` is out of bounds by rounding, the angle of the bound.
  unfoldable pub bounded_angle : Object → Object
  bounded_angle y =
      if is_nan (arccos y)
      then mul (mul (literal "0.5") pi) (sub (literal "1.0") (sign y))
      else arccos y

  -- `np.array([x,y,z])` of arrays
  unfoldable pub directions : List Object → List Object → Result AstrometryError (List (Vector N))
  unfolding x_of y_of
  directions lon lat = do
    x ← or_raise (broadcast x_of lon lat) bad_shapes
    y ← or_raise (broadcast y_of lon lat) bad_shapes
    or_raise (rows N x y (map sin lat)) bad_shapes

  unfoldable pub native_of : Vector N → Object × Object
  unfolding lat_out y_out bounded_angle sided
  native_of v = (sided v (y_out v) (bounded_angle (y_out v)), lat_out v)

  -- `_nativeLonLatFromPointing` of arrays
  unfoldable pub native_lon_lat_arrays :
      List Object
      → List Object
      → Object
      → Object
      → Result AstrometryError (List Object × List Object)
  unfolding directions to_native native_of
  native_lon_lat_arrays lon lat lon_pointing lat_pointing = do
    vs ← directions lon lat
    ok (pair_columns (map (λ v. native_of (to_native lon_pointing lat_pointing v)) vs))

  -- `_nativeLonLatFromPointing` of numbers: where `_y` is out of bounds, `_ra` becomes a plain float,
  -- and the code goes on as it does for arrays and calls `zip` on it.
  unfoldable pub native_lon_lat :
      Object → Object → Object → Object → Result AstrometryError (Object × Object)
  unfolding x_of y_of to_native lat_out y_out sided_number
  native_lon_lat lon lat lon_pointing lat_pointing =
      let v = to_native lon_pointing lat_pointing (x_of lon lat, y_of lon lat, sin lat) in
      if is_nan (arccos (y_out v))
      then err no_array
      else ok (sided_number v (y_out v) (arccos (y_out v)), lat_out v)

  unfoldable pub sky_of : Vector N → Object × Object
  unfolding lat_out y_out sided
  sky_of v = (sided v (y_out v) (arccos (y_out v)), lat_out v)

  -- `_lonLatFromNativeLonLat` of arrays
  unfoldable pub lon_lat_arrays :
      List Object
      → List Object
      → Object
      → Object
      → Result AstrometryError (List Object × List Object)
  unfolding directions from_native sky_of
  lon_lat_arrays lon lat lon_pointing lat_pointing = do
    vs ← directions lon lat
    ok (pair_columns (map (λ v. sky_of (from_native lon_pointing lat_pointing v)) vs))

  -- `_lonLatFromNativeLonLat` of numbers
  unfoldable pub lon_lat : Object → Object → Object → Object → Object × Object
  unfolding x_of y_of from_native lat_out y_out sided_number
  lon_lat lon lat lon_pointing lat_pointing =
      let v = from_native lon_pointing lat_pointing (x_of lon lat, y_of lon lat, sin lat) in
      (sided_number v (y_out v) (arccos (y_out v)), lat_out v)
