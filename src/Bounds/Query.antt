-- ===== src/Bounds/Query.antt =====
-- The rows that the SQL of a box selects.
use sims_utils.Base.{String, ◌<>◌, ◌≡◌, Bool, false, ◌&&◌, not, arith, if◌then◌else◌}
use sims_utils.Numpy.{Numpy}
use sims_utils.Bounds.Box.{BoxBounds, box_to_sql, is_whole_sky, between_sql, not_between_sql}

module _ (N : Numpy) where
  open N use {Object, lt}

  pub data Column : Type 0 where
    ra_column dec_column : Column

  -- A condition of a WHERE clause.
  pub data Condition : Type 0 where
    between not_between : Column → Object → Object → Condition
    both : Condition → Condition → Condition

  unfoldable pub name_of : String → String → Column → String
  name_of ra_name dec_name ra_column = ra_name
  name_of ra_name dec_name dec_column = dec_name

  unfoldable pub render : String → String → Condition → String
  unfolding name_of
  render r d (between c lo hi) = between_sql N (name_of r d c) lo hi
  render r d (not_between c lo hi) = not_between_sql N (name_of r d c) lo hi
  render r d (both p q) = render r d p <> (" and " <> render r d q)

  -- SQL's BETWEEN takes both ends in.
  unfoldable pub is_between : Object → Object → Object → Bool
  is_between lo hi x = not (lt x lo) && not (lt hi x)

  unfoldable pub value_of : Object → Object → Column → Object
  value_of ra dec ra_column = ra
  value_of ra dec dec_column = dec

  unfoldable pub holds : Condition → Object → Object → Bool
  unfolding is_between value_of
  holds (between c lo hi) ra dec = is_between lo hi (value_of ra dec c)
  holds (not_between c lo hi) ra dec = not (is_between lo hi (value_of ra dec c))
  holds (both p q) ra dec = holds p ra dec && holds q ra dec

  -- What a box asks of RA, where it does not ask for the whole sky.
  unfoldable pub ra_condition : BoxBounds N → Condition
  ra_condition b =
      if lt b.ra_max_deg b.ra_min_deg
      then not_between ra_column b.ra_max_deg b.ra_min_deg
      else between ra_column b.ra_min_deg b.ra_max_deg

  unfoldable pub dec_condition : BoxBounds N → Condition
  dec_condition b = between dec_column b.dec_min_deg b.dec_max_deg

  -- A box that is not marked as the whole sky is queried by both conditions.
  pub box_to_sql-render :
      (b : BoxBounds N) (r d : String)
      → is_whole_sky N b ≡ false
      → box_to_sql N b r d ≡ render r d (both (ra_condition b) (dec_condition b))
  unfolding box_to_sql render ra_condition dec_condition
  box_to_sql-render b r d e = ground arith
