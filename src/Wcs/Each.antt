-- ===== src/Wcs/Each.antt =====
-- Native longitude and latitude of arrays and of numbers.
use sims_utils.Base.{◌≡◌, ◌∙◌, true, false, List, map, arith, Bool-cases, inl, inr, if◌then◌else◌}
use sims_utils.Base.Result.{ok, err}
use sims_utils.Numpy.{Numpy}
use sims_utils.Arrays.{broadcast-map, map-map, pair_columns}
use sims_utils.Coordinates.Vectors.{Vector, rows-map}
use sims_utils.Astrometry.Actions.{no_array}
use sims_utils.Wcs.{
  x_of, y_of, to_native, from_native, y_out, lat_out, sided, sided_number, bounded_angle,
  directions, native_of, native_lon_lat_arrays, native_lon_lat, sky_of, lon_lat_arrays, lon_lat,
}

-- Whole turns less an angle is NaN only if the angle is.
pub record KeepsNumbers (N : Numpy) : Type 0 where
  pub nan_of_number :
      (x : N.Object)
      → N.is_nan x ≡ false
      → N.is_nan (N.sub (N.mul (N.literal "2.0") N.pi) x) ≡ false
  pub nan_of_nan :
      (x : N.Object) → N.is_nan x ≡ true → N.is_nan (N.sub (N.mul (N.literal "2.0") N.pi) x) ≡ true

module _ (N : Numpy) where
  open N use {Object, sin, arccos, is_nan, literal}

  abbrev pub direction : Object × Object → Vector N
  direction p = (x_of N p.0 p.1, y_of N p.0 p.1, sin p.1)

  pub directions-eq :
      (ps : List (Object × Object))
      → directions N (map (λ p. p.0) ps) (map (λ p. p.1) ps) ≡ ok (map direction ps)
  unfolding directions
  directions-eq ps = simp (
    broadcast-map (x_of N) (λ (p : Object × Object). p.0) (λ p. p.1) ps,
    broadcast-map (y_of N) (λ (p : Object × Object). p.0) (λ p. p.1) ps,
    map-map sin (λ (p : Object × Object). p.1) ps,
    rows-map N (λ (p : Object × Object). x_of N p.0 p.1) (λ p. y_of N p.0 p.1) (λ p. sin p.1) ps,
  )

  module _ (law : KeepsNumbers N) where
    sided-eq : (v : Vector N) (y angle : Object) → sided N v y angle ≡ sided_number N v y angle
    unfolding sided sided_number
    sided-eq v y angle = ground (arith, law.nan_of_number angle, law.nan_of_nan angle)

    -- Of two columns, `_nativeLonLatFromPointing` gives a native position for every point; of one
    -- point as two numbers it gives the same position, except where the arccosine that it takes is
    -- NaN: there it raises.
    pub native_lon_lat_each :
        (lon_pointing lat_pointing : Object) (ps : List (Object × Object)) (p : Object × Object)
        → let native : Object × Object → Object × Object =
            λ q. native_of N (to_native N lon_pointing lat_pointing (direction q)) in
          let angle = arccos (y_out N (to_native N lon_pointing lat_pointing (direction p))) in
          (native_lon_lat_arrays N (map (λ q. q.0) ps) (map (λ q. q.1) ps) lon_pointing lat_pointing
            ≡ ok (pair_columns (map native ps)))
          × (native_lon_lat N p.0 p.1 lon_pointing lat_pointing
              ≡ (if is_nan angle then err no_array else ok (native p)))
    unfolding native_lon_lat_arrays native_lon_lat native_of bounded_angle
    native_lon_lat_each lon_pointing lat_pointing ps p =
        let v = to_native N lon_pointing lat_pointing (direction p) in
        (
          simp (
            directions-eq ps,
            map-map (λ w. native_of N (to_native N lon_pointing lat_pointing w)) direction ps,
          ),
          elim (Bool-cases (is_nan (arccos (y_out N v)))) [
            | inl e ↦ simp (e)
            | inr e ↦ simp (e, sided-eq v (y_out N v) (arccos (y_out N v)))
          ],
        )

    -- Of two columns, `_lonLatFromNativeLonLat` gives the columns of the positions that it gives of
    -- each point as two numbers, NaN or not.
    pub lon_lat_each :
        (lon_pointing lat_pointing : Object) (ps : List (Object × Object))
        → lon_lat_arrays N (map (λ p. p.0) ps) (map (λ p. p.1) ps) lon_pointing lat_pointing
          ≡ ok (pair_columns (map (λ p. lon_lat N p.0 p.1 lon_pointing lat_pointing) ps))
    unfolding lon_lat_arrays lon_lat sky_of
    lon_lat_each lon_pointing lat_pointing ps =
        let turned : Object × Object → Vector N =
          λ p. from_native N lon_pointing lat_pointing (direction p) in
        let angle : Object × Object → Object = λ p. arccos (y_out N (turned p)) in
        (simp (
          directions-eq ps,
          map-map (λ w. sky_of N (from_native N lon_pointing lat_pointing w)) direction ps,
        ))
        ∙ (λ i. ok (
            pair_columns (
              map
                (λ p. (sided-eq (turned p) (y_out N (turned p)) (angle p) i, lat_out N (turned p)))
                ps)))
