-- ===== src/Coordinates/Turning.antt =====
-- CoordinateTransformations.py: the rotation matrix from one vector to another.
use sims_utils.Base.{◌≡◌, refl, ap, ◌∙◌, Bool, false}
use sims_utils.Base.Result.{Result, ok, raise_if, ◌>>◌}
use sims_utils.Numpy.{Numpy}
use sims_utils.Coordinates.Vectors.{Vector, dot}

pub data RotationError : Type 0 where
  first_not_unit second_not_unit : RotationError

module _ (N : Numpy) where
  open N use {Object, literal, add, sub, mul, div, neg, abs, sqrt, lt, sin, cos, arccos}

  abbrev pub Matrix : Type 0
  Matrix = Vector N × Vector N × Vector N

  -- `numpy.abs(numpy.sqrt(numpy.dot(v, v)) - 1.0) > 0.01`
  unfoldable pub is_not_unit : Vector N → Bool
  is_not_unit v = lt (literal "0.01") (abs (sub (sqrt (dot N v v)) (literal "1.0")))

  -- `numpy.cross`
  unfoldable pub cross_product : Vector N → Vector N → Vector N
  cross_product (x, y, z) (x', y', z') =
      (sub (mul y z') (mul z y'), sub (mul z x') (mul x z'), sub (mul x y') (mul y x'))

  -- `cross / numpy.sqrt(numpy.dot(cross, cross))`
  unfoldable pub axis : Vector N → Vector N
  axis c = let r = sqrt (dot N c c) in (div c.0 r, div c.1 r, div c.2 r)

  -- `rot`, of an axis and of the sine and the cosine of an angle
  unfoldable pub about_axis : Vector N → Object → Object → Matrix
  about_axis (a, b, c) s d =
      let k = sub (literal "1") d in
      (
        (
          add d (mul (mul a a) k),
          add (mul (neg c) s) (mul (mul k a) b),
          add (mul b s) (mul (mul k a) c),
        ),
        (
          add (mul c s) (mul (mul k a) b),
          add d (mul (mul k b) b),
          add (mul (neg a) s) (mul (mul k b) c),
        ),
        (
          add (mul (neg b) s) (mul (mul k a) c),
          add (mul a s) (mul (mul k b) c),
          add d (mul k (mul c c)),
        ),
      )

  unfoldable pub rotation_matrix_from_vectors : Vector N → Vector N → Result RotationError Matrix
  unfolding is_not_unit cross_product axis about_axis
  rotation_matrix_from_vectors v1 v2 =
      raise_if (is_not_unit v1) first_not_unit
      >> raise_if (is_not_unit v2) second_not_unit
      >> (let angle = arccos (dot N v1 v2) in
          ok (about_axis (axis (cross_product v1 v2)) (sin angle) (cos angle)))

  abbrev pub transposed : Matrix → Matrix
  transposed m = ((m.0.0, m.1.0, m.2.0), (m.0.1, m.1.1, m.2.1), (m.0.2, m.1.2, m.2.2))

-- What is true of signs in arithmetic.
pub record HasSigns (N : Numpy) : Type 0 where
  pub mul_comm : (x y : N.Object) → N.mul x y ≡ N.mul y x
  pub sub_swap : (x y : N.Object) → N.sub x y ≡ N.neg (N.sub y x)
  pub div_neg : (x y : N.Object) → N.div (N.neg x) y ≡ N.neg (N.div x y)
  pub neg_twice : (x : N.Object) → N.neg (N.neg x) ≡ x
  pub mul_signs : (x y : N.Object) → N.mul (N.neg x) (N.neg y) ≡ N.mul x y
  pub mul_signs_apart :
      (k x y : N.Object) → N.mul (N.mul k (N.neg x)) (N.neg y) ≡ N.mul (N.mul k x) y

module _ (N : Numpy) (signs : HasSigns N) where
  open N use {Object, neg, sin, cos, arccos, add, sub, mul}

  abbrev negated : Vector N → Vector N
  negated v = (neg v.0, neg v.1, neg v.2)

  cross_product-swap : (v w : Vector N) → cross_product N w v ≡ negated (cross_product N v w)
  unfolding cross_product
  cross_product-swap v w = cc (
    signs.sub_swap (mul w.1 v.2) (mul w.2 v.1),
    signs.sub_swap (mul w.2 v.0) (mul w.0 v.2),
    signs.sub_swap (mul w.0 v.1) (mul w.1 v.0),
    signs.mul_comm w.1 v.2,
    signs.mul_comm w.2 v.1,
    signs.mul_comm w.2 v.0,
    signs.mul_comm w.0 v.2,
    signs.mul_comm w.0 v.1,
    signs.mul_comm w.1 v.0,
  )

  dot-negated : (c : Vector N) → dot N (negated c) (negated c) ≡ dot N c c
  dot-negated c = cc (signs.mul_signs c.0 c.0, signs.mul_signs c.1 c.1, signs.mul_signs c.2 c.2)

  axis-negated : (c : Vector N) → axis N (negated c) ≡ negated (axis N c)
  unfolding axis
  axis-negated c = rw (dot-negated c, axis) (simp signs.div_neg)

  about_axis-negated :
      (c : Vector N) (s d : Object)
      → about_axis N (negated c) s d ≡ transposed N (about_axis N c s d)
  unfolding about_axis
  about_axis-negated c s d = simp (signs.neg_twice, signs.mul_signs, signs.mul_signs_apart)

  dot_comm : (v w : Vector N) → dot N v w ≡ dot N w v
  dot_comm v w = cc (signs.mul_comm v.0 w.0, signs.mul_comm v.1 w.1, signs.mul_comm v.2 w.2)

  -- Where numbers have signs: for two vectors that pass the tests of length, the matrix from the
  -- second to the first is the transpose of the matrix from the first to the second.
  pub rotation_matrix-swap :
      (v w : Vector N)
      → is_not_unit N v ≡ false
      → is_not_unit N w ≡ false
      → (m : Matrix N) × (rotation_matrix_from_vectors N v w ≡ ok m)
        × (rotation_matrix_from_vectors N w v ≡ ok (transposed N m))
  unfolding rotation_matrix_from_vectors
  rotation_matrix-swap v w unit unit' =
      let angle = arccos (dot N v w) in
      let n = axis N (cross_product N v w) in
      (
        about_axis N n (sin angle) (cos angle),
        rw (unit, unit') refl,
        rw (unit, unit')
            (ap
                (λ d.
                  ok
                    (about_axis N (axis N (cross_product N w v)) (sin (arccos d)) (cos (arccos d))))
                (dot_comm w v)
              ∙ ap (λ c. ok (about_axis N (axis N c) (sin angle) (cos angle)))
                  (cross_product-swap v w)
              ∙ ap (λ a. ok (about_axis N a (sin angle) (cos angle)))
                  (axis-negated (cross_product N v w))
              ∙ ap ok (about_axis-negated n (sin angle) (cos angle))),
      )
