-- ===== src/Bounds/Registry.antt =====
-- Which class `getSpatialBounds` finds.
use sims_utils.Base.{String, ◌≡◌, arith, str_eq, if◌then◌else◌}
use sims_utils.Base.Result.{err}
use sims_utils.Numpy.{Numpy}
use sims_utils.Bounds.{get_spatial_bounds, construct, circle_class, box_class}
use sims_utils.Bounds.Errors.{unknown_bounds}

module _ (N : Numpy) where
  -- The registry holds the two shapes and not the parent class: 'circle' and 'box' build a field
  -- of view of that shape from the same arguments, and any other name raises and is reported.
  pub get_spatial_bounds_lem :
      (name : String) (ra dec length : N.Object)
      → get_spatial_bounds N name ra dec length ≡ (
          if str_eq name "circle"
          then construct N circle_class ra dec length
          else if str_eq name "box"
          then construct N box_class ra dec length
          else err (unknown_bounds name))
  unfolding get_spatial_bounds
  get_spatial_bounds_lem name ra dec length = ground arith
