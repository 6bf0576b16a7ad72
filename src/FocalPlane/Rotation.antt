-- ===== src/FocalPlane/Rotation.antt =====
-- A rotation of the plane, and the one by the opposite angle, in exact arithmetic.
use sims_utils.Base.{◌≡◌, sym, ap, ◌∙◌}
use sims_utils.Numpy.{Numpy}
use sims_utils.Astropy.{Astropy}
use sims_utils.Palpy.Places.{Places}
use sims_utils.FocalPlane.Points.{rotated, flipped}

-- The laws of numbers that the rotations need. `-1.0` is what the code multiplies by to negate.
pub record IsExact (N : Numpy) : Type 0 where
  pub zero : N.Object
  pub one : N.Object
  pub add_comm : (x y : N.Object) → N.add x y ≡ N.add y x
  pub add_assoc : (x y z : N.Object) → N.add (N.add x y) z ≡ N.add x (N.add y z)
  pub add_zero : (x : N.Object) → N.add x zero ≡ x
  pub mul_comm : (x y : N.Object) → N.mul x y ≡ N.mul y x
  pub mul_assoc : (x y z : N.Object) → N.mul (N.mul x y) z ≡ N.mul x (N.mul y z)
  pub mul_one : (x : N.Object) → N.mul x one ≡ x
  pub mul_add : (x y z : N.Object) → N.mul x (N.add y z) ≡ N.add (N.mul x y) (N.mul x z)
  pub sub_eq : (x y : N.Object) → N.sub x y ≡ N.add x (N.mul y (N.literal "-1.0"))
  pub add_negated : (x : N.Object) → N.add x (N.mul x (N.literal "-1.0")) ≡ zero
  pub negated_twice : (x : N.Object) → N.mul (N.mul x (N.literal "-1.0")) (N.literal "-1.0") ≡ x
  pub cos_negated : (x : N.Object) → N.cos (N.mul (N.literal "-1.0") x) ≡ N.cos x
  pub sin_negated :
      (x : N.Object) → N.sin (N.mul (N.literal "-1.0") x) ≡ N.mul (N.sin x) (N.literal "-1.0")
  pub squares : (x : N.Object) → N.add (N.mul (N.cos x) (N.cos x)) (N.mul (N.sin x) (N.sin x)) ≡ one

module _ (N : Numpy) (law : IsExact N) where
  open N use {Object, literal, add, sub, mul, sin, cos}
  open law use {
    zero, one, add_comm, add_assoc, add_zero, mul_comm, mul_assoc, mul_one, mul_add, sub_eq,
    add_negated, negated_twice, cos_negated, sin_negated, squares,
  }

  abbrev pub neg : Object → Object
  neg x = mul x (literal "-1.0")

  pub neg-mul : (x y : Object) → mul x (neg y) ≡ neg (mul x y)
  neg-mul x y = sym (mul_assoc x y (literal "-1.0"))

  pub mul-neg : (x y : Object) → mul (neg x) y ≡ neg (mul x y)
  mul-neg x y = mul_comm (neg x) y ∙ neg-mul y x ∙ ap neg (mul_comm y x)

  pub add_mul : (x y z : Object) → mul (add x y) z ≡ add (mul x z) (mul y z)
  add_mul x y z = mul_comm (add x y) z ∙ mul_add z x y ∙ cc (mul_comm z x, mul_comm z y)

  -- Two terms in the middle that cancel.
  pub cancel : (a b c : Object) → add (add a (neg b)) (add c b) ≡ add a c
  cancel a b c =
      add_assoc a (neg b) (add c b)
      ∙ ap (add a) (
          add_comm (neg b) (add c b)
          ∙ add_assoc c b (neg b)
          ∙ ap (add c) (add_negated b)
          ∙ add_zero c)

  -- `(x cos² t) + (x sin² t)`
  whole : (x t : Object) → add (mul (mul x (cos t)) (cos t)) (mul (mul x (sin t)) (sin t)) ≡ x
  whole x t = cc (
    mul_assoc x (cos t) (cos t),
    mul_assoc x (sin t) (sin t),
    mul_add x (mul (cos t) (cos t)) (mul (sin t) (sin t)),
    squares t,
    mul_one x,
  )

  swap : (x a b : Object) → mul (mul x a) b ≡ mul (mul x b) a
  swap x a b = mul_assoc x a b ∙ ap (mul x) (mul_comm a b) ∙ sym (mul_assoc x b a)

  first_back :
      (x y c s : Object)
      → sub (mul (sub (mul x c) (mul y s)) c) (mul (add (mul x s) (mul y c)) (neg s))
        ≡ add (mul (mul x c) c) (mul (mul x s) s)
  first_back x y c s = cc (
    sub_eq (mul x c) (mul y s),
    add_mul (mul x c) (neg (mul y s)) c,
    mul-neg (mul y s) c,
    sub_eq (mul (sub (mul x c) (mul y s)) c) (mul (add (mul x s) (mul y c)) (neg s)),
    neg-mul (add (mul x s) (mul y c)) s,
    negated_twice (mul (add (mul x s) (mul y c)) s),
    add_mul (mul x s) (mul y c) s,
    swap y c s,
    cancel (mul (mul x c) c) (mul (mul y s) c) (mul (mul x s) s),
  )

  second_back :
      (x y c s : Object)
      → add (mul (sub (mul x c) (mul y s)) (neg s)) (mul (add (mul x s) (mul y c)) c)
        ≡ add (mul (mul y c) c) (mul (mul y s) s)
  second_back x y c s = cc (
    sub_eq (mul x c) (mul y s),
    neg-mul (sub (mul x c) (mul y s)) s,
    add_mul (mul x c) (neg (mul y s)) s,
    mul-neg (mul y s) s,
    add_mul (mul (mul x c) s) (neg (mul (mul y s) s)) (literal "-1.0"),
    negated_twice (mul (mul y s) s),
    add_mul (mul x s) (mul y c) c,
    swap x c s,
    add_comm (neg (mul (mul x c) s)) (mul (mul y s) s),
    add_comm (mul (mul x c) s) (mul (mul y c) c),
    cancel (mul (mul y s) s) (mul (mul x c) s) (mul (mul y c) c),
    add_comm (mul (mul y s) s) (mul (mul y c) c),
  )

module _ (N : Numpy) (A : Astropy N) (P : Places N) (law : IsExact N) where
  open N use {Object, literal, mul, sin, cos}

  -- In exact arithmetic the rotation of the pupil by an angle is undone by the one by -1.0 times
  -- that angle, and the two changes of the sign of x around them undo each other.
  pub turn_back :
      (theta : Object) (xy : Object × Object)
      → flipped N A P
          (rotated N A P (mul (literal "-1.0") theta) (rotated N A P theta (flipped N A P xy)))
        ≡ xy
  turn_back theta (x, y) =
      let c = cos theta in
      let s = sin theta in
      cc (
        law.cos_negated theta,
        law.sin_negated theta,
        first_back N law (mul x (literal "-1.0")) y c s,
        second_back N law (mul x (literal "-1.0")) y c s,
        whole N law (mul x (literal "-1.0")) theta,
        whole N law y theta,
        law.negated_twice x,
      )
