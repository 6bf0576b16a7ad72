-- ===== src/Sampling/Order.antt =====
-- An order of numbers and the arithmetic on it, for the ranges of `samplePatchOnSphere`.
use sims_utils.Base.{◌≡◌, false, ap, sym, ◌∙◌, subst}
use sims_utils.Numpy.{Numpy}

-- The numbers are an ordered group under addition, a number from 0 to 1 makes a number that is not
-- negative smaller, and the cosine falls from 1 to -1 between 0 and pi, where the arccosine undoes
-- it.
pub record IsOrdered (N : Numpy) : Type 1 where
  pub Le : N.Object → N.Object → Type 0
  pub le_trans : (x y z : N.Object) → Le x y → Le y z → Le x z
  pub unless_less : (x y : N.Object) → N.lt x y ≡ false → Le y x
  pub degrees_rises : (x y : N.Object) → Le x y → Le (N.degrees x) (N.degrees y)
  pub add_rises : (x y z : N.Object) → Le x y → Le (N.add x z) (N.add y z)
  pub neg_falls : (x y : N.Object) → Le x y → Le (N.neg y) (N.neg x)
  pub add_comm : (x y : N.Object) → N.add x y ≡ N.add y x
  pub add_assoc : (x y z : N.Object) → N.add (N.add x y) z ≡ N.add x (N.add y z)
  pub add_zero : (x : N.Object) → N.add x (N.literal "0.") ≡ x
  pub add_neg : (x : N.Object) → N.add x (N.neg x) ≡ N.literal "0."
  pub neg_neg : (x : N.Object) → N.neg (N.neg x) ≡ x
  pub neg_add : (x y : N.Object) → N.neg (N.add x y) ≡ N.add (N.neg x) (N.neg y)
  pub sub_eq : (x y : N.Object) → N.sub x y ≡ N.add x (N.neg y)
  pub mul_comm : (x y : N.Object) → N.mul x y ≡ N.mul y x
  pub neg_mul : (x y : N.Object) → N.mul (N.neg x) y ≡ N.neg (N.mul x y)
  pub twice : (x : N.Object) → N.mul (N.literal "2.") x ≡ N.add x x
  pub mul_in_unit :
      (u x : N.Object)
      → Le (N.literal "0.") u
      → Le u (N.literal "1.")
      → Le (N.literal "0.") x
      → Le (N.literal "0.") (N.mul u x) × Le (N.mul u x) x
  pub cos_low : (x : N.Object) → Le (N.neg (N.literal "1.")) (N.cos x)
  pub cos_high : (x : N.Object) → Le (N.cos x) (N.literal "1.")
  pub cos_falls :
      (x y : N.Object) → Le (N.literal "0.") x → Le x y → Le y N.pi → Le (N.cos y) (N.cos x)
  pub arccos_falls :
      (x y : N.Object)
      → Le (N.neg (N.literal "1.")) x
      → Le x y
      → Le y (N.literal "1.")
      → Le (N.arccos y) (N.arccos x)
  pub arccos-cos : (x : N.Object) → Le (N.literal "0.") x → Le x N.pi → N.arccos (N.cos x) ≡ x

module _ (N : Numpy) (ordered : IsOrdered N) where
  open N use {Object, literal, add, sub, mul, neg, pi, cos, arccos}
  open ordered use {
    Le, le_trans, add_rises, neg_falls, add_comm, add_assoc, add_zero, add_neg, neg_neg, neg_add,
    sub_eq, mul_comm, neg_mul, twice, mul_in_unit, cos_low, cos_high, arccos_falls, arccos-cos,
  }

  abbrev zero : Object
  zero = literal "0."

  -- Of equal numbers
  respects : {x x' y y' : Object} → x ≡ x' → y ≡ y' → Le x y → Le x' y'
  respects {x} {x'} {y} {y'} e e' h = subst (λ z. Le z y') e (subst (λ z. Le x z) e' h)

  zero_add : (x : Object) → add zero x ≡ x
  zero_add x = add_comm zero x ∙ add_zero x

  neg_zero : neg zero ≡ zero
  neg_zero = sym (zero_add (neg zero)) ∙ add_neg zero

  -- A sum taken from its first term
  back : (x y : Object) → add x (neg (add x y)) ≡ neg y
  back x y =
      ap (add x) (neg_add x y)
      ∙ sym (add_assoc x (neg x) (neg y))
      ∙ ap (λ z. add z (neg y)) (add_neg x)
      ∙ zero_add (neg y)

  restored : (x y : Object) → add y (add x (neg y)) ≡ x
  restored x y =
      add_comm y (add x (neg y))
      ∙ add_assoc x (neg y) y
      ∙ ap (add x) (add_comm (neg y) y ∙ add_neg y)
      ∙ add_zero x

  -- The two ends of a range about a number
  pub ends : (x d : Object) → Le zero d → Le (sub x d) (add x d)
  ends x d h =
      let below : Le (neg d) zero = subst (Le (neg d)) neg_zero (neg_falls zero d h) in
      respects (add_comm (neg d) x ∙ sym (sub_eq x d)) (add_comm d x)
        (add_rises (neg d) d x (le_trans (neg d) zero d below h))

  -- The distance from a third number turns a range about.
  pub turned_low : (q t d x : Object) → Le x (add (sub q t) d) → Le (sub t d) (sub q x)
  turned_low q t d x h =
      let far = add (sub q t) d in
      respects
        (add_comm (neg far) q
          ∙ ap (λ z. add q (neg z)) (ap (λ z. add z d) (sub_eq q t) ∙ add_assoc q (neg t) d)
          ∙ back q (add (neg t) d)
          ∙ neg_add (neg t) d
          ∙ ap (λ z. add z (neg d)) (neg_neg t)
          ∙ sym (sub_eq t d))
        (add_comm (neg x) q ∙ sym (sub_eq q x)) (add_rises (neg far) (neg x) q (neg_falls x far h))

  pub turned_high : (q t d x : Object) → Le (sub (sub q t) d) x → Le (sub q x) (add t d)
  turned_high q t d x h =
      let near = sub (sub q t) d in
      respects (add_comm (neg x) q ∙ sym (sub_eq q x))
        (add_comm (neg near) q
          ∙ ap (λ z. add q (neg z))
              (sub_eq (sub q t) d
                ∙ ap (λ z. add z (neg d)) (sub_eq q t)
                ∙ add_assoc q (neg t) (neg d))
          ∙ back q (add (neg t) (neg d))
          ∙ neg_add (neg t) (neg d)
          ∙ cc (neg_neg t, neg_neg d))
        (add_rises (neg x) (neg near) q (neg_falls near x h))

  -- A part of a length, taken from its end
  pub part_below :
      (v l h : Object)
      → Le zero v
      → Le v (literal "1.")
      → Le l h
      → Le l (add (mul (neg v) (sub h l)) h) × Le (add (mul (neg v) (sub h l)) h) h
  part_below v l h low high rises =
      let w = sub h l in
      let length : Le zero w =
        respects (add_neg l) (sym (sub_eq h l)) (add_rises l h (neg l) rises) in
      let (p, q) = mul_in_unit v w low high length in
      let part = sym (neg_mul v w) in
      (
        respects
            (add_comm (neg w) h ∙ ap (λ z. add h (neg z)) (sub_eq h l) ∙ back h (neg l) ∙ neg_neg l)
            (ap (λ z. add z h) part)
            (add_rises (neg w) (neg (mul v w)) h (neg_falls (mul v w) w q)),
        respects (ap (λ z. add z h) part) (ap (λ z. add z h) neg_zero ∙ zero_add h)
            (add_rises (neg (mul v w)) (neg zero) h (neg_falls zero (mul v w) p)),
      )

  -- A part of twice a half width, added to the start of the range
  pub part_above :
      (u x d : Object)
      → Le zero u
      → Le u (literal "1.")
      → Le zero d
      → Le (sub x d) (add (mul (mul (literal "2.") d) u) (sub x d))
        × Le (add (mul (mul (literal "2.") d) u) (sub x d)) (add x d)
  part_above u x d low high h =
      let w = mul (literal "2.") d in
      let both : Le zero (add d d) =
        le_trans zero d (add d d) h (respects (zero_add d) (λ _. add d d) (add_rises zero d d h)) in
      let (p, q) = mul_in_unit u w low high (subst (Le zero) (sym (twice d)) both) in
      let part = mul_comm u w in
      (
        respects (zero_add (sub x d)) (ap (λ z. add z (sub x d)) part)
            (add_rises zero (mul u w) (sub x d) p),
        respects (ap (λ z. add z (sub x d)) part)
            (cc (twice d, sub_eq x d, add_assoc d d (add x (neg d)), restored x d, add_comm d x))
            (add_rises (mul u w) w (sub x d) q),
      )

  -- The arccosine of a number between two cosines
  pub arccos_between :
      (x y c : Object)
      → Le zero x
      → Le x y
      → Le y pi
      → Le (cos y) c
      → Le c (cos x)
      → Le x (arccos c) × Le (arccos c) y
  arccos_between x y c positive rises within low high = (
    respects (arccos-cos x positive (le_trans x y pi rises within)) (λ _. arccos c)
        (arccos_falls c (cos x) (le_trans _ _ _ (cos_low y) low) high (cos_high x)),
    respects (λ _. arccos c) (arccos-cos y (le_trans zero x y positive rises) within)
        (arccos_falls (cos y) c (cos_low y) low (le_trans _ _ _ high (cos_high x))),
  )
