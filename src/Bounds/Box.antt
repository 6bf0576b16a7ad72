-- ===== src/Bounds/Box.antt =====
-- `BoxBounds` of python/lsst/sims/utils/SpatialBounds.py.
use sims_utils.Base.{String, ◌<>◌, Bool, ◌&&◌, Option, none, some, List, [], ◌∷◌, if◌then◌else◌}
use sims_utils.Base.Result.{Result, ok, ◌>>=◌, or_raise}
use sims_utils.Numpy.{Numpy}
use sims_utils.Bounds.Errors.{BoundsError, box_ra, box_dec, box_length}
use sims_utils.Bounds.Circle.{as_float}

module _ (N : Numpy) where
  open N use {
    Object, literal, add, sub, mod_, lt, eq, degrees, is_float, is_number, to_float, items?,
    format_f,
  }

  pub record BoxBounds : Type 0 where
    pub ra : Object
    pub dec : Object
    pub ra_deg : Object
    pub dec_deg : Object
    pub ra_min_deg : Object
    pub ra_max_deg : Object
    pub dec_min_deg : Object
    pub dec_max_deg : Object

  -- `np.degrees(x)`, which raises on what is no number
  unfoldable pub degrees? : Object → Option Object
  degrees? x = if is_number x then some (degrees x) else none

  -- `length[0]` and `length[1]` in degrees, or `length[0]` twice; too few items raise
  unfoldable pub side_lengths : List Object → Option (Object × Object)
  unfolding degrees?
  side_lengths [] = none
  side_lengths (x ∷ []) = elim (degrees? x) [ none ↦ none | some l ↦ some (l, l) ]
  side_lengths (x ∷ y ∷ rest) = elim (degrees? x) [
    | none ↦ none
    | some l ↦ elim (degrees? y) [ none ↦ none | some m ↦ some (l, m) ]
  ]

  -- The body of the `try` on `length`.
  unfoldable pub half_lengths : Object → Option (Object × Object)
  unfolding side_lengths
  half_lengths length = elim (items? length) [
    | some xs ↦ side_lengths xs
    | none ↦ elim (to_float length) [ none ↦ none | some l ↦ some (degrees l, degrees l) ]
  ]

  -- The fields, from the float centre and the half-lengths in degrees.
  unfoldable pub box_of : Object → Object → Object × Object → BoxBounds
  box_of ra dec (l, m) = record {
    ra = ra;
    dec = dec;
    ra_deg = degrees ra;
    dec_deg = degrees dec;
    ra_min_deg = mod_ (sub (degrees ra) l) (literal "360.0");
    ra_max_deg = mod_ (add (degrees ra) l) (literal "360.0");
    dec_min_deg = sub (degrees dec) m;
    dec_max_deg = add (degrees dec) m;
  }

  -- `BoxBounds.__init__`
  unfoldable pub box_bounds : Object → Object → Object → Result BoundsError BoxBounds
  unfolding as_float half_lengths box_of
  box_bounds ra dec length = do
    ra' ← as_float N box_ra ra
    dec' ← as_float N box_dec dec
    lengths ← or_raise (half_lengths length) box_length
    ok (box_of ra' dec' lengths)

  -- `__eq__` between two boxes
  unfoldable pub box_eq : BoxBounds → BoxBounds → Bool
  box_eq b c =
      eq b.ra c.ra
      && (eq b.ra_deg c.ra_deg
          && (eq b.dec c.dec
              && (eq b.dec_deg c.dec_deg
                  && (eq b.ra_min_deg c.ra_min_deg
                      && (eq b.ra_max_deg c.ra_max_deg
                          && (eq b.dec_min_deg c.dec_min_deg && eq b.dec_max_deg c.dec_max_deg))))))

  -- `self.RAminDeg < 0 and self.RAmaxDeg > 360.`
  unfoldable pub is_whole_sky : BoxBounds → Bool
  is_whole_sky b = lt b.ra_min_deg (literal "0") && lt (literal "360.") b.ra_max_deg

  -- The text `"%s between %f and %f"`.
  unfoldable pub between_sql : String → Object → Object → String
  between_sql name lo hi = name <> (" between " <> (format_f lo <> (" and " <> format_f hi)))

  -- The text `"%s not between %f and %f"`.
  unfoldable pub not_between_sql : String → Object → Object → String
  not_between_sql name lo hi =
      name <> (" not between " <> (format_f lo <> (" and " <> format_f hi)))

  unfoldable pub box_to_sql : BoxBounds → String → String → String
  unfolding is_whole_sky between_sql not_between_sql
  box_to_sql b ra_name dec_name =
      let dec_sql = between_sql dec_name b.dec_min_deg b.dec_max_deg in
      if is_whole_sky b
      then dec_sql
      else if lt b.ra_max_deg b.ra_min_deg
      then not_between_sql ra_name b.ra_max_deg b.ra_min_deg <> (" and " <> dec_sql)
      else between_sql ra_name b.ra_min_deg b.ra_max_deg <> (" and " <> dec_sql)
