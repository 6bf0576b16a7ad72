-- ===== src/Tests/SamplingExamples.antt =====
-- The theorem about samples for whole numbers, with a half turn of 2, a cosine that falls from 1 to
-- -1 on the way there, and a generator that draws nothing but 1.
use native.Mathlib.Nat.{add_comm, mul_comm}
use sims_utils.Base.{
  ℕ, zero, suc, ◌+◌, ◌*◌, ◌≤◌, ◌≡◌, refl, true, false, some, none, List, arith, length, str_eq, not,
  ◌&&◌, ◌||◌, if◌then◌else◌,
}
use sims_utils.Base.Int.{ℤ, pos, negsuc, pos_part, neg_part, sub_ℕ, ◌+ℤ◌, ◌-ℤ◌, ltb_ℤ}
use sims_utils.Base.Result.{ok}
use sims_utils.Healpix.Arrays.{All, replicate, length-replicate}
use sims_utils.Numpy.{Numpy}
use sims_utils.Sampling.{Random, sample_patch_on_sphere, reaches_pole, from_pole}
use sims_utils.Sampling.Order.{IsOrdered}
use sims_utils.Sampling.Range.{IsUniform, IsRa, IsDec, samples_in_patch}

abbrev negated : ℤ → ℤ
negated x = sub_ℕ (neg_part x) (pos_part x)

abbrev product : ℤ → ℤ → ℤ
product x y =
    sub_ℕ (pos_part x * pos_part y + neg_part x * neg_part y)
      (pos_part x * neg_part y + neg_part x * pos_part y)

abbrev cosine : ℤ → ℤ
cosine x = if ltb_ℤ x (pos 0) then pos 1 else if ltb_ℤ (pos 2) x then negsuc 0 else pos 1 -ℤ x

abbrev whole : Numpy
whole = record {
  Object = ℤ;
  literal = λ s.
      if str_eq s "2." || str_eq s "2.0" then pos 2 else if str_eq s "1." then pos 1 else pos 0;
  add = λ x y. x +ℤ y;
  sub = λ x y. x -ℤ y;
  mul = product;
  div = λ x y. pos 1;
  mod_ = λ x y. x;
  lt = ltb_ℤ;
  eq = λ x y. not (ltb_ℤ x y) && not (ltb_ℤ y x);
  same_key = λ x y. false;
  pi = pos 2;
  radians = λ x. x;
  degrees = λ x. x;
  sin = λ x. x;
  cos = cosine;
  arcsin = λ x. x;
  arccos = λ x. pos 1 -ℤ x;
  arctan2 = λ x y. x;
  sqrt = λ x. x;
  neg = negated;
  sign = λ x. x;
  abs = λ x. x;
  nan = pos 0;
  is_nan = λ x. false;
  is_float = λ x. true;
  is_int = λ x. true;
  is_number = λ x. true;
  to_float = λ x. some x;
  items? = λ x. none;
  iter? = λ x. none;
  format_f = λ x. "";
  format_s = λ x. "";
}

abbrev the_one : ℤ
the_one = pos 1

-- A generator that draws nothing but 1.
abbrev ones : Random whole
ones = record { Generator = ℕ; seeded = λ s. 0; uniform = λ n k. (replicate n the_one, suc k) }

abbrev AtMost : ℤ → ℤ → Type 0
AtMost x y = pos_part x + neg_part y ≤ pos_part y + neg_part x

plus_comm : (x y : ℤ) → x +ℤ y ≡ y +ℤ x
plus_comm x y = cc (add_comm (pos_part x) (pos_part y), add_comm (neg_part x) (neg_part y))

plus_assoc : (x y z : ℤ) → (x +ℤ y) +ℤ z ≡ x +ℤ (y +ℤ z)
plus_assoc x y z = ground arith

product_comm : (x y : ℤ) → product x y ≡ product y x
product_comm x y = cc (
  mul_comm (pos_part x) (pos_part y),
  mul_comm (neg_part x) (neg_part y),
  mul_comm (pos_part x) (neg_part y),
  mul_comm (neg_part x) (pos_part y),
  add_comm (pos_part x * neg_part y) (neg_part x * pos_part y),
)

negated_difference : (a b : ℕ) → negated (sub_ℕ a b) ≡ sub_ℕ b a
negated_difference a b = ground arith

pos_part-negated : (x : ℤ) → pos_part (negated x) ≡ neg_part x
pos_part-negated (pos n) = ground arith
pos_part-negated (negsuc n) = ground arith

neg_part-negated : (x : ℤ) → neg_part (negated x) ≡ pos_part x
neg_part-negated (pos n) = ground arith
neg_part-negated (negsuc n) = ground arith

product-negated : (x y : ℤ) → product (negated x) y ≡ negated (product x y)
product-negated x y = cc (
  pos_part-negated x,
  neg_part-negated x,
  negated_difference (pos_part x * pos_part y + neg_part x * neg_part y)
      (pos_part x * neg_part y + neg_part x * pos_part y),
  add_comm (pos_part x * pos_part y) (neg_part x * neg_part y),
  add_comm (pos_part x * neg_part y) (neg_part x * pos_part y),
)

product_in_unit :
    (u x : ℤ)
    → AtMost (pos 0) u
    → AtMost u (pos 1)
    → AtMost (pos 0) x
    → AtMost (pos 0) (product u x) × AtMost (product u x) x
product_in_unit (pos zero) x h k l = ground arith
product_in_unit (pos (suc zero)) x h k l = ground arith
product_in_unit (pos (suc (suc n))) x h k l = omega arith
product_in_unit (negsuc n) x h k l = omega arith

unfoldable whole-IsOrdered : IsOrdered whole
whole-IsOrdered = record {
  Le = AtMost;
  le_trans = λ x y z h k. omega arith;
  unless_less = λ x y h. ground arith;
  degrees_rises = λ x y h. h;
  add_rises = λ x y z h. ground arith;
  neg_falls = λ x y h. ground arith;
  add_comm = plus_comm;
  add_assoc = plus_assoc;
  add_zero = λ x. ground arith;
  add_neg = λ x. ground arith;
  neg_neg = λ x. ground arith;
  neg_add = λ x y. ground arith;
  sub_eq = λ x y. ground arith;
  mul_comm = product_comm;
  neg_mul = product-negated;
  twice = λ x. ground arith;
  mul_in_unit = product_in_unit;
  cos_low = λ x. ground arith;
  cos_high = λ x. ground arith;
  cos_falls = λ x y h k l. ground arith;
  arccos_falls = λ x y h k l. ground arith;
  arccos-cos = λ x h k. ground arith;
}

ones_in_unit : (n : ℕ) → All (λ x. AtMost (pos 0) x × AtMost x (pos 1)) (replicate n the_one)
ones_in_unit zero = tt
ones_in_unit (suc n) = ((omega arith, omega arith), ones_in_unit n)

unfoldable ones-IsUniform : IsUniform whole ones whole-IsOrdered
unfolding whole-IsOrdered
ones-IsUniform = record {
  as_many = λ n s. length-replicate n the_one;
  in_unit = λ n s. ones_in_unit n;
}

-- The patch about the origin, of half width 1.
samples_in_patch_example :
    (ra dec : List ℤ) × (s : ℕ) × (sample_patch_on_sphere whole ones
        (some (pos 0))
        (some (pos 0))
        (some (pos 1))
        3
        (pos 7)
        5
      ≡ (ok (ra, dec), s))
    × (length ra ≡ 3)
    × (length dec ≡ 3)
    × All (IsRa whole whole-IsOrdered (pos 0) (pos 1)) ra
    × All (IsDec whole whole-IsOrdered (pos 0) (pos 1)) dec
unfolding whole-IsOrdered reaches_pole from_pole
samples_in_patch_example =
    samples_in_patch whole ones whole-IsOrdered ones-IsUniform (pos 0) (pos 0) (pos 1) (pos 7) 3 5
      (omega arith) refl
