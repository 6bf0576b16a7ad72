-- ===== src/Coordinates/Vectors.antt =====
-- CoordinateTransformations.py: between angles and vectors, and the distance of two points.
use sims_utils.Base.{Option, none, some, List, [], ◌∷◌, map, ◌≡◌, refl, ap}
use sims_utils.Base.Result.{Result, ok, err, ◌>>=◌, or_raise}
use sims_utils.Numpy.{Numpy}
use sims_utils.Arrays.{
  Value, number, array, broadcast, broadcast-map, map-map, scaled, apply_to, combine, pair_columns,
  combine-map,
}

-- What may go wrong: an argument is no array, an operator has no meaning for its arguments or for
-- the lengths of its arrays, or rows differ in length.
pub data VectorError : Type 0 where
  no_arrays no_operator unequal_rows : VectorError

module _ (N : Numpy) where
  open N use {Object, literal, add, sub, mul, div, sin, cos, arcsin, arctan2, sqrt}

  abbrev pub Vector : Type 0
  Vector = Object × Object × Object

  -- `numpy.array([xs, ys, zs]).transpose()`
  abbrev pub rows : List Object → List Object → List Object → Option (List Vector)
  rows [] [] [] = some []
  rows (x ∷ xs) (y ∷ ys) (z ∷ zs) = elim (rows xs ys zs) [
    | some vs ↦ some ((x, y, z) ∷ vs)
    | none ↦ none
  ]
  rows _ _ _ = none

  unfoldable pub cartesian_from_spherical :
      Value Object → Value Object → Result VectorError (List Vector)
  cartesian_from_spherical (array longitude) (array latitude) = do
    let cos_dec = map cos latitude
    x ← or_raise (broadcast mul (map cos longitude) cos_dec) unequal_rows
    y ← or_raise (broadcast mul (map sin longitude) cos_dec) unequal_rows
    or_raise (rows x y (map sin latitude)) unequal_rows
  cartesian_from_spherical _ _ = err no_arrays

  -- `numpy.power(xyz, 2).sum(axis=1)`, and `numpy.dot` of two vectors
  abbrev pub dot : Vector → Vector → Object
  dot (x, y, z) (x', y', z') = add (add (mul x x') (mul y y')) (mul z z')

  unfoldable pub spherical_from_vector : Vector → Object × Object
  spherical_from_vector v = (arctan2 v.1 v.0, arcsin (div v.2 (sqrt (dot v v))))

  -- `sphericalFromCartesian` of an array with a row for each point
  unfoldable pub spherical_from_cartesian : List Vector → List Object × List Object
  unfolding spherical_from_vector
  spherical_from_cartesian vs = pair_columns (map spherical_from_vector vs)

  abbrev pub unit : Object × Object → Vector
  unit p = (mul (cos p.0) (cos p.1), mul (sin p.0) (cos p.1), sin p.1)

  pub rows-map :
      {S : Type 0} (f g h : S → Object) (ss : List S)
      → rows (map f ss) (map g ss) (map h ss) ≡ some (map (λ s. (f s, g s, h s)) ss)
  rows-map f g h [] = refl
  rows-map f g h (s ∷ ss) =
      ap (λ o. elim o [ some vs ↦ some ((f s, g s, h s) ∷ vs) | none ↦ none ]) (rows-map f g h ss)

  pub cartesian_from_spherical-eq :
      (ps : List (Object × Object))
      → cartesian_from_spherical (array (map (λ p. p.0) ps)) (array (map (λ p. p.1) ps))
        ≡ ok (map unit ps)
  unfolding cartesian_from_spherical
  cartesian_from_spherical-eq ps = simp (
    map-map cos (λ (p : Object × Object). p.0) ps,
    map-map cos (λ (p : Object × Object). p.1) ps,
    map-map sin (λ (p : Object × Object). p.0) ps,
    map-map sin (λ (p : Object × Object). p.1) ps,
    broadcast-map mul (λ (p : Object × Object). cos p.0) (λ p. cos p.1) ps,
    broadcast-map mul (λ (p : Object × Object). sin p.0) (λ p. cos p.1) ps,
    rows-map (λ (p : Object × Object). mul (cos p.0) (cos p.1)) (λ p. mul (sin p.0) (cos p.1))
        (λ p. sin p.1) ps,
  )

  -- `x ** 2`
  abbrev pub square : Object → Object
  square x = mul x x

  abbrev pub half : Object → Object
  half x = div x (literal "2.")

  abbrev pub halved : Value Object → Option (Value Object)
  halved v = scaled half v

  -- `haversine` of numbers and arrays
  unfoldable pub haversine :
      Value Object → Value Object → Value Object → Value Object → Result VectorError (Value Object)
  haversine long1 lat1 long2 lat2 = do
    half_lat2 ← or_raise (halved lat2) no_operator
    half_lat1 ← or_raise (halved lat1) no_operator
    lat ← or_raise (combine sub half_lat2 half_lat1) no_operator
    let t1 = apply_to square (apply_to sin lat)
    coss ← or_raise (combine mul (apply_to cos lat1) (apply_to cos lat2)) no_operator
    half_long2 ← or_raise (halved long2) no_operator
    half_long1 ← or_raise (halved long1) no_operator
    long ← or_raise (combine sub half_long2 half_long1) no_operator
    t2 ← or_raise (combine mul coss (apply_to square (apply_to sin long))) no_operator
    t ← or_raise (combine add t1 t2) no_operator
    ok (apply_to (mul (literal "2")) (apply_to arcsin (apply_to sqrt t)))

  -- The distance of two points, in numbers.
  unfoldable pub distance : Object → Object → Object → Object → Object
  distance long1 lat1 long2 lat2 = mul (literal "2") (
      arcsin (
        sqrt (
          add (square (sin (sub (half lat2) (half lat1))))
            (mul (mul (cos lat1) (cos lat2)) (square (sin (sub (half long2) (half long1))))))))

  pub distance-number :
      (a b c d : Object)
      → haversine (number a) (number b) (number c) (number d) ≡ ok (number (distance a b c d))
  unfolding haversine distance scaled combine apply_to
  distance-number a b c d = refl

  module _ {S : Type 0} (ss : List S) where
    apply_to-map :
        (f : Object → Object) (g : S → Object)
        → apply_to f (array (map g ss)) ≡ array (map (λ s. f (g s)) ss)
    unfolding apply_to
    apply_to-map f g = ap array (map-map f g ss)

    halved-map :
        (g : S → Object) → halved (array (map g ss)) ≡ some (array (map (λ s. half (g s)) ss))
    unfolding scaled
    halved-map g = ap (λ xs. some (array xs)) (map-map half g ss)

    pub haversine-map :
        (a b c d : S → Object)
        → haversine (array (map a ss)) (array (map b ss)) (array (map c ss)) (array (map d ss))
          ≡ ok (array (map (λ s. distance (a s) (b s) (c s) (d s)) ss))
    unfolding haversine distance
    haversine-map a b c d =
        let t1 : S → Object = λ s. square (sin (sub (half (d s)) (half (b s)))) in
        let coss : S → Object = λ s. mul (cos (b s)) (cos (d s)) in
        let t2 : S → Object = λ s. square (sin (sub (half (c s)) (half (a s)))) in
        simp (
          halved-map a,
          halved-map b,
          halved-map c,
          halved-map d,
          combine-map sub (λ s. half (d s)) (λ s. half (b s)) ss,
          apply_to-map sin (λ s. sub (half (d s)) (half (b s))),
          apply_to-map square (λ s. sin (sub (half (d s)) (half (b s)))),
          apply_to-map cos b,
          apply_to-map cos d,
          combine-map mul (λ s. cos (b s)) (λ s. cos (d s)) ss,
          combine-map sub (λ s. half (c s)) (λ s. half (a s)) ss,
          apply_to-map sin (λ s. sub (half (c s)) (half (a s))),
          apply_to-map square (λ s. sin (sub (half (c s)) (half (a s)))),
          combine-map mul coss t2 ss,
          combine-map add t1 (λ s. mul (coss s) (t2 s)) ss,
          apply_to-map sqrt (λ s. add (t1 s) (mul (coss s) (t2 s))),
          apply_to-map arcsin (λ s. sqrt (add (t1 s) (mul (coss s) (t2 s)))),
          apply_to-map (mul (literal "2")) (λ s. arcsin (sqrt (add (t1 s) (mul (coss s) (t2 s))))),
        )
