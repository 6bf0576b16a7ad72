-- ===== src/Bounds/Errors.antt =====
-- The exceptions of SpatialBounds.py, one constructor for each `raise`.
use sims_utils.Base.{String}

pub data BoundsError : Type 0 where
  circle_ra circle_dec circle_radius : BoundsError
  box_ra box_dec box_length : BoundsError
  not_implemented : BoundsError
  unknown_bounds : String → BoundsError
