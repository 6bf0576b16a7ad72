-- ===== src/Wcs/Rotations.antt =====
-- The two rotations of WcsUtils.py undo each other, in exact arithmetic.
use sims_utils.Base.{◌≡◌, sym, ap, ◌∙◌}
use sims_utils.Numpy.{Numpy}
use sims_utils.Coordinates.Vectors.{Vector}
use sims_utils.FocalPlane.Rotation.{IsExact, neg-mul, mul-neg, add_mul, cancel}
use sims_utils.Wcs.{apply_matrix, to_native, from_native}

-- What is used of the numerals and of the sign, beside the laws of numbers.
pub record HasNumerals (N : Numpy) (law : IsExact N) : Type 0 where
  pub zero_literal : N.literal "0.0" ≡ law.zero
  pub one_literal : N.literal "1.0" ≡ law.one
  pub zero_mul : (x : N.Object) → N.mul law.zero x ≡ law.zero
  pub neg_eq : (x : N.Object) → N.neg x ≡ N.mul x (N.literal "-1.0")

module _ (N : Numpy) (law : IsExact N) where
  open N use {Object, literal, add, sub, mul, sin, cos, neg, pi}
  open law use {
    zero, one, add_comm, add_assoc, add_zero, mul_comm, mul_assoc, mul_one, mul_add, sub_eq,
    negated_twice, cos_negated, sin_negated, squares,
  }

  abbrev minus : Object → Object
  minus x = mul x (literal "-1.0")

  across : (a b x : Object) → mul a (mul b x) ≡ mul b (mul a x)
  across a b x = sym (mul_assoc a b x) ∙ ap (λ y. mul y x) (mul_comm a b) ∙ mul_assoc b a x

  squared : (t x : Object) → add (mul (cos t) (mul (cos t) x)) (mul (sin t) (mul (sin t) x)) ≡ x
  squared t x = cc (
    mul_assoc (cos t) (cos t) x,
    mul_assoc (sin t) (sin t) x,
    add_mul N law (mul (cos t) (cos t)) (mul (sin t) (sin t)) x,
    squares t,
    mul_comm one x,
    mul_one x,
  )

  first_back :
      (a b c s : Object)
      → add (mul c (add (mul c a) (mul s b))) (mul (minus s) (add (mul (minus s) a) (mul c b)))
        ≡ add (mul c (mul c a)) (mul s (mul s a))
  first_back a b c s = cc (
    mul_add c (mul c a) (mul s b),
    mul_add (minus s) (mul (minus s) a) (mul c b),
    mul-neg N law s (mul (minus s) a),
    mul-neg N law s a,
    neg-mul N law s (mul s a),
    negated_twice (mul s (mul s a)),
    mul-neg N law s (mul c b),
    across s c b,
    add_comm (add (mul c (mul c a)) (mul c (mul s b)))
        (add (mul s (mul s a)) (minus (mul c (mul s b)))),
    cancel N law (mul s (mul s a)) (mul c (mul s b)) (mul c (mul c a)),
    add_comm (mul s (mul s a)) (mul c (mul c a)),
  )

  second_back :
      (a b c s : Object)
      → add (mul s (add (mul c a) (mul s b))) (mul c (add (mul (minus s) a) (mul c b)))
        ≡ add (mul c (mul c b)) (mul s (mul s b))
  second_back a b c s = cc (
    mul_add s (mul c a) (mul s b),
    mul_add c (mul (minus s) a) (mul c b),
    mul-neg N law s a,
    neg-mul N law c (mul s a),
    across c s a,
    add_comm (mul s (mul c a)) (mul s (mul s b)),
    add_comm (minus (mul s (mul c a))) (mul c (mul c b)),
    add_comm (add (mul s (mul s b)) (mul s (mul c a)))
        (add (mul c (mul c b)) (minus (mul s (mul c a)))),
    cancel N law (mul c (mul c b)) (mul s (mul c a)) (mul s (mul s b)),
  )

  opposite : (x y : Object) → sub y x ≡ mul (literal "-1.0") (sub x y)
  opposite x y = cc (
    sub_eq x y,
    sub_eq y x,
    mul_comm (literal "-1.0") (sub x y),
    add_mul N law x (minus y) (literal "-1.0"),
    negated_twice y,
    add_comm y (minus x),
  )

  abbrev turn_z : Object → Object → Vector N → Vector N
  turn_z c s v = (add (mul c v.0) (mul s v.1), add (mul (minus s) v.0) (mul c v.1), v.2)

  abbrev turn_back_z : Object → Object → Vector N → Vector N
  turn_back_z c s v = (add (mul c v.0) (mul (minus s) v.1), add (mul s v.0) (mul c v.1), v.2)

  abbrev turn_x : Object → Object → Vector N → Vector N
  turn_x c s v = (v.0, add (mul c v.1) (mul s v.2), add (mul (minus s) v.1) (mul c v.2))

  turn_z-inverse :
      (t : Object) (v : Vector N) → turn_back_z (cos t) (sin t) (turn_z (cos t) (sin t) v) ≡ v
  turn_z-inverse t (x, y, z) =
      let p = first_back x y (cos t) (sin t) ∙ squared t x in
      let q = second_back x y (cos t) (sin t) ∙ squared t y in λ i. (p i, q i, z)

  turn_x-inverse :
      (t : Object) (v : Vector N) → turn_x (cos t) (minus (sin t)) (turn_x (cos t) (sin t) v) ≡ v
  turn_x-inverse t (x, y, z) =
      let p = first_back y z (cos t) (sin t) ∙ squared t y in
      let u = turn_x (cos t) (sin t) (x, y, z) in
      let q =
        ap (λ n. add (mul n u.1) (mul (cos t) u.2)) (negated_twice (sin t))
        ∙ second_back y z (cos t) (sin t)
        ∙ squared t z in
      λ i. (x, p i, q i)

  module _ (numerals : HasNumerals N law) where
    open numerals use {zero_literal, one_literal, zero_mul, neg_eq}

    zero_add : (x : Object) → add zero x ≡ x
    zero_add x = add_comm zero x ∙ add_zero x

    one_mul : (x : Object) → mul one x ≡ x
    one_mul x = mul_comm one x ∙ mul_one x

    abbrev one_ : Object
    one_ = literal "1.0"

    abbrev zero_ : Object
    zero_ = literal "0.0"

    -- A row with one 1.0, or with a 0.0 in front or at the end.
    first_row : (x y z : Object) → add (add (mul one_ x) (mul zero_ y)) (mul zero_ z) ≡ x
    first_row x y z = cc (zero_literal, one_literal, zero_mul y, zero_mul z, one_mul x, add_zero x)

    last_row : (x y z : Object) → add (add (mul zero_ x) (mul zero_ y)) (mul one_ z) ≡ z
    last_row x y z =
        cc (zero_literal, one_literal, zero_mul x, zero_mul y, add_zero zero, one_mul z, zero_add z)

    upper :
        (a b x y z : Object) → add (add (mul a x) (mul b y)) (mul zero_ z) ≡ add (mul a x) (mul b y)
    upper a b x y z = cc (zero_literal, zero_mul z, add_zero (add (mul a x) (mul b y)))

    lower :
        (a b x y z : Object) → add (add (mul zero_ x) (mul a y)) (mul b z) ≡ add (mul a y) (mul b z)
    lower a b x y z = cc (zero_literal, zero_mul x, zero_add (mul a y))

    z-eq :
        (c s : Object) (v : Vector N)
        → apply_matrix N ((c, s, zero_), (neg s, c, zero_), (zero_, zero_, one_)) v ≡ turn_z c s v
    unfolding apply_matrix
    z-eq c s (x, y, z) =
        let p = upper c s x y z in
        let q = upper (neg s) c x y z ∙ ap (λ n. add (mul n x) (mul c y)) (neg_eq s) in
        let r = last_row x y z in λ i. (p i, q i, r i)

    back_z-eq :
        (c s : Object) (v : Vector N)
        → apply_matrix N ((c, mul (literal "-1.0") s, zero_), (s, c, zero_), (zero_, zero_, one_)) v
          ≡ turn_back_z c s v
    unfolding apply_matrix
    back_z-eq c s (x, y, z) =
        let p =
          upper c (mul (literal "-1.0") s) x y z
          ∙ ap (λ n. add (mul c x) (mul n y)) (mul_comm (literal "-1.0") s) in
        let q = upper s c x y z in let r = last_row x y z in λ i. (p i, q i, r i)

    x-eq :
        (c s : Object) (v : Vector N)
        → apply_matrix N ((one_, zero_, zero_), (zero_, c, s), (zero_, mul (literal "-1.0") s, c)) v
          ≡ turn_x c s v
    unfolding apply_matrix
    x-eq c s (x, y, z) =
        let p = first_row x y z in
        let q = lower c s x y z in
        let r =
          lower (mul (literal "-1.0") s) c x y z
          ∙ ap (λ n. add (mul n y) (mul c z)) (mul_comm (literal "-1.0") s) in
        λ i. (p i, q i, r i)

    -- In exact arithmetic the rotations of `_lonLatFromNativeLonLat` undo those of
    -- `_nativeLonLatFromPointing` about the same pointing, on any vector.
    pub from_native-to_native :
        (lon_pointing lat_pointing : Object) (v : Vector N)
        → from_native N lon_pointing lat_pointing (to_native N lon_pointing lat_pointing v) ≡ v
    unfolding from_native to_native
    from_native-to_native lon lat v =
        let alpha = sub lat (mul (literal "0.5") pi) in
        let alpha' = sub (mul (literal "0.5") pi) lat in
        let o = opposite lat (mul (literal "0.5") pi) in
        let c = ap cos o ∙ cos_negated alpha in
        let s = ap sin o ∙ sin_negated alpha in
        let w = turn_z (cos lon) (sin lon) v in
        let back : Vector N → Vector N = λ u.
          apply_matrix N
            (
              (cos lon, mul (literal "-1.0") (sin lon), zero_),
              (sin lon, cos lon, zero_),
              (zero_, zero_, one_),
            )
            u in
        let tilt : Object → Object → Vector N → Vector N = λ ca sa u.
          apply_matrix N
            ((one_, zero_, zero_), (zero_, ca, sa), (zero_, mul (literal "-1.0") sa, ca)) u in
        ap (λ u. back (tilt (cos alpha') (sin alpha') (tilt (cos alpha) (sin alpha) u)))
          (z-eq (cos lon) (sin lon) v)
        ∙ (λ i. back (tilt (c i) (s i) (x-eq (cos alpha) (sin alpha) w i)))
        ∙ ap back (
            x-eq (cos alpha) (minus (sin alpha)) (turn_x (cos alpha) (sin alpha) w)
            ∙ turn_x-inverse alpha w)
        ∙ back_z-eq (cos lon) (sin lon) w
        ∙ turn_z-inverse lon v
