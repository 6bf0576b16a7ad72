-- ===== src/Bounds/Circle.antt =====
-- `CircleBounds` of python/lsst/sims/utils/SpatialBounds.py.
use sims_utils.Base.{String, ◌<>◌, Bool, ◌&&◌, not, if◌then◌else◌}
use sims_utils.Base.Result.{Result, ok, ◌>>=◌, or_raise}
use sims_utils.Numpy.{Numpy}
use sims_utils.Bounds.Errors.{BoundsError, circle_ra, circle_dec, circle_radius}

module _ (N : Numpy) where
  open N use {
    Object, literal, add, sub, mul, div, lt, eq, pi, degrees, sin, cos, arcsin, is_float, to_float,
    format_f, format_s,
  }

  pub record CircleBounds : Type 0 where
    pub ra : Object
    pub dec : Object
    pub radius : Object
    pub ra_deg : Object
    pub dec_deg : Object
    pub radius_deg : Object

  -- A float as it is; anything else through `np.float`, whose exception is turned into `e`.
  unfoldable pub as_float : BoundsError → Object → Result BoundsError Object
  as_float e x = if is_float x then ok x else or_raise (to_float x) e

  unfoldable pub circle_bounds : Object → Object → Object → Result BoundsError CircleBounds
  unfolding as_float
  circle_bounds ra dec radius = do
    ra' ← as_float circle_ra ra
    dec' ← as_float circle_dec dec
    radius' ← as_float circle_radius radius
    ok (record {
      ra = ra';
      dec = dec';
      radius = radius';
      ra_deg = degrees ra';
      dec_deg = degrees dec';
      radius_deg = degrees radius';
    })

  -- `__eq__` between two circles
  unfoldable pub circle_eq : CircleBounds → CircleBounds → Bool
  circle_eq c d =
      eq c.ra d.ra
      && (eq c.dec d.dec
          && (eq c.radius d.radius
              && (eq c.ra_deg d.ra_deg
                  && (eq c.dec_deg d.dec_deg && eq c.radius_deg d.radius_deg))))

  -- `360.0 * np.arcsin(np.sin(0.5*self.radius) / np.cos(self.DEC))/np.pi`
  unfoldable pub ra_half_width : CircleBounds → Object
  ra_half_width c =
      div (mul (literal "360.0") (arcsin (div (sin (mul (literal "0.5") c.radius)) (cos c.dec)))) pi

  -- `self.DECdeg != 90.0 and self.DECdeg != -90.0`
  unfoldable pub is_off_poles : CircleBounds → Bool
  is_off_poles c = not (eq c.dec_deg (literal "90.0")) && not (eq c.dec_deg (literal "-90.0"))

  unfoldable pub circle_ra_max : CircleBounds → Object
  unfolding ra_half_width is_off_poles
  circle_ra_max c = if is_off_poles c then add c.ra_deg (ra_half_width c) else literal "360.0"

  unfoldable pub circle_ra_min : CircleBounds → Object
  unfolding ra_half_width is_off_poles
  circle_ra_min c = if is_off_poles c then sub c.ra_deg (ra_half_width c) else literal "0.0"

  -- `to_SQL` up to the box that holds the circle
  unfoldable pub circle_box_sql : CircleBounds → String → String → String
  unfolding circle_ra_min circle_ra_max
  circle_box_sql c ra_name dec_name =
      ra_name
      <> (" between "
          <> (format_f (circle_ra_min c)
              <> (" and "
                  <> (format_f (circle_ra_max c)
                      <> (" and "
                          <> (dec_name
                              <> (" between "
                                  <> (format_f (sub c.dec_deg c.radius_deg)
                                      <> (" and "
                                          <> (format_f (add c.dec_deg c.radius_deg) <> " "))))))))))

  unfoldable pub circle_to_sql : CircleBounds → String → String → String
  unfolding circle_box_sql
  circle_to_sql c ra_name dec_name =
      circle_box_sql c ra_name dec_name
      <> (("and 2 * ASIN(SQRT( POWER(SIN(0.5*("
            <> (dec_name <> (" - " <> (format_s c.dec_deg <> ") * PI() / 180.0),2)"))))
          <> (("+ COS("
                <> (dec_name
                    <> (" * PI() / 180.0) * COS(" <> (format_s c.dec_deg <> " * PI() / 180.0) "))))
              <> (("* POWER(SIN(0.5 * ("
                    <> (ra_name <> (" - " <> (format_s c.ra_deg <> ") * PI() / 180.0),2)))"))))
                  <> (" < " <> (format_s c.radius <> " ")))))
