-- ===== src/Bounds.antt =====
-- python/lsst/sims/utils/SpatialBounds.py: the two fields of view behind one type, and the
-- registry that the metaclass fills as the classes are declared.
pub mod Errors
pub mod Circle
pub mod Box
pub mod Registry
pub mod Query
pub mod Exact
use sims_utils.Base.{
  String, Bool, false, Option, none, some, List, [], ◌∷◌, str_eq, if◌then◌else◌, true,
}
use sims_utils.Base.Result.{Result, ok, err, ◌>>=◌}
use sims_utils.Base.Dict.{Dict, lookup, insert}
use sims_utils.Numpy.{Numpy}
use sims_utils.Bounds.Errors.{BoundsError, not_implemented, unknown_bounds}
use sims_utils.Bounds.Circle.{CircleBounds, circle_bounds, circle_eq, circle_to_sql}
use sims_utils.Bounds.Box.{BoxBounds, box_bounds, box_eq, box_to_sql}

-- The classes of the file.
pub data BoundsClass : Type 0 where
  spatial_bounds circle_class box_class : BoundsClass

abbrev pub Registry : Type 0
Registry = Dict String BoundsClass

-- `boundType`; the parent class has none.
unfoldable pub bound_type_of : BoundsClass → Option String
bound_type_of spatial_bounds = none
bound_type_of circle_class = some "circle"
bound_type_of box_class = some "box"

-- `SpatialBoundsMetaClass.__init__`: `none` is a class attribute `SBregistry` that is not there.
unfoldable pub register : Option Registry → BoundsClass → Option Registry
unfolding bound_type_of
register none cls = some []
register (some r) cls = elim (bound_type_of cls) [
  | none ↦ some r
  | some name ↦ some (insert str_eq name cls r)
]

-- What stands in `SBregistry` after the module has been read.
unfoldable pub registry : Option Registry
unfolding register
registry = register (register (register none spatial_bounds) circle_class) box_class

module _ (N : Numpy) where
  open N use {Object}

  pub data Bounds : Type 0 where
    circle : CircleBounds N → Bounds
    box : BoxBounds N → Bounds

  unfoldable pub bounds_eq : Bounds → Bounds → Bool
  bounds_eq (circle c) (circle d) = circle_eq N c d
  bounds_eq (box b) (box c) = box_eq N b c
  bounds_eq _ _ = false

  unfoldable pub to_sql : Bounds → String → String → String
  to_sql (circle c) = circle_to_sql N c
  to_sql (box b) = box_to_sql N b

  -- `cls(ra, dec, length)`
  unfoldable pub construct : BoundsClass → Object → Object → Object → Result BoundsError Bounds
  construct spatial_bounds ra dec length = err not_implemented
  construct circle_class ra dec length = circle_bounds N ra dec length >>= λ c. ok (circle c)
  construct box_class ra dec length = box_bounds N ra dec length >>= λ b. ok (box b)

  -- The lookup of `getSpatialBounds` in a registry.
  unfoldable pub construct_from :
      Option Registry → String → Object → Object → Object → Result BoundsError Bounds
  unfolding construct
  construct_from none name ra dec length = err (unknown_bounds name)
  construct_from (some r) name ra dec length = elim (lookup str_eq name r) [
    | none ↦ err (unknown_bounds name)
    | some cls ↦ construct cls ra dec length
  ]

  unfoldable pub get_spatial_bounds : String → Object → Object → Object → Result BoundsError Bounds
  unfolding construct_from registry
  get_spatial_bounds = construct_from registry
