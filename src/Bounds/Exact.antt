-- ===== src/Bounds/Exact.antt =====
-- Boxes in exact arithmetic: angles are whole multiples of a small unit, of which a full turn
-- has `turn`, and are written in degrees throughout.
use native.Mathlib.Nat.{mod-eq_of_lt, mod-eq-sub-mod}
use sims_utils.Base.{
  ℕ, ◌+◌, ◌-◌, ◌*◌, ◌≤◌, ◌<◌, ◌≡◌, refl, sym, ◌∙◌, String, Bool, true, false, ◌&&◌, ◌||◌, not, none,
  some, [], ◌∷◌, arith, str_eq, if◌then◌else◌, leb, ltb,
}
use sims_utils.Base.Int.{ℤ, pos, pos_part, ◌+ℤ◌, ◌-ℤ◌, ltb_ℤ, mod_ℤ}
use sims_utils.Base.Result.{ok, ok-injective}
use sims_utils.Numpy.{Numpy}
use sims_utils.Bounds.Box.{BoxBounds, box_of, box_bounds}
use sims_utils.Bounds.Query.{ra_condition, holds}

-- A float, or a pair of side lengths.
pub data Angle : Type 0 where
  angle : ℤ → Angle
  sides : ℤ → ℤ → Angle

abbrev pub units : Angle → ℤ
units (angle x) = x
units (sides x y) = x

-- The numerals of SpatialBounds.py that a box is built and queried with.
abbrev pub numeral : ℕ → String → ℤ
numeral turn s = if str_eq s "360.0" || str_eq s "360." then pos turn else pos 0

-- Sine, cosine and the other functions of circles are not used by a box.
abbrev pub exact : ℕ → Numpy
exact turn = record {
  Object = Angle;
  literal = λ s. angle (numeral turn s);
  add = λ x y. angle (units x +ℤ units y);
  sub = λ x y. angle (units x -ℤ units y);
  mul = λ x y. x;
  div = λ x y. x;
  mod_ = λ x y. angle (mod_ℤ (units x) (pos_part (units y)));
  lt = λ x y. ltb_ℤ (units x) (units y);
  eq = λ x y. not (ltb_ℤ (units x) (units y)) && not (ltb_ℤ (units y) (units x));
  same_key = λ x y. not (ltb_ℤ (units x) (units y)) && not (ltb_ℤ (units y) (units x));
  pi = angle (pos 0);
  radians = λ x. x;
  degrees = λ x. x;
  sin = λ x. x;
  cos = λ x. x;
  arcsin = λ x. x;
  arccos = λ x. x;
  arctan2 = λ x y. x;
  sqrt = λ x. x;
  neg = λ x. x;
  sign = λ x. x;
  abs = λ x. x;
  nan = angle (pos 0);
  is_nan = λ x. false;
  is_float = λ x. elim x [ angle _ ↦ true | sides _ _ ↦ false ];
  is_int = λ x. false;
  is_number = λ x. elim x [ angle _ ↦ true | sides _ _ ↦ false ];
  to_float = λ x. elim x [ angle a ↦ some (angle a) | sides _ _ ↦ none ];
  items? = λ x. elim x [ angle _ ↦ none | sides a b ↦ some (angle a ∷ angle b ∷ []) ];
  iter? = λ x. elim x [ angle _ ↦ none | sides a b ↦ some (angle a ∷ angle b ∷ []) ];
  format_f = λ x. "";
  format_s = λ x. "";
}

module _ (turn : ℕ) where
  -- The ends in RA of a box about `c` of half-width `l`.
  abbrev west : ℕ → ℕ → ℤ
  west c l = mod_ℤ (pos c -ℤ pos l) turn

  abbrev east : ℕ → ℕ → ℤ
  east c l = mod_ℤ (pos c +ℤ pos l) turn

  west_lem :
      (c l : ℕ) → c < turn → l < turn → west c l ≡ pos (if leb l c then c - l else turn + c - l)
  west_lem c l hc hl = grind (arith, mod-eq_of_lt)

  east_lem :
      (c l : ℕ)
      → c < turn
      → l < turn
      → east c l ≡ pos (if ltb (c + l) turn then c + l else c + l - turn)
  east_lem c l hc hl = grind (arith, mod-eq_of_lt, mod-eq-sub-mod)

  -- How far `r` is from `c` on the circle.
  unfoldable pub separation : ℕ → ℕ → ℕ
  separation c r =
      let d = if leb r c then c - r else r - c in if leb (2 * d) turn then d else turn - d

  -- Whether a row at RA `r` meets the condition on RA.
  unfoldable pub selects_ra : BoxBounds (exact turn) → ℕ → Bool
  selects_ra b r = holds (exact turn) (ra_condition (exact turn) b) (angle (pos r)) (angle (pos 0))

  -- The box that `BoxBounds` builds about RA `c` and Dec `d`.
  unfoldable pub about : ℕ → ℤ → ℕ → ℕ → BoxBounds (exact turn)
  about c d l m = box_of (exact turn) (angle (pos c)) (angle d) (angle (pos l), angle (pos m))

  about_lem :
      (c : ℕ) (d : ℤ) (l m : ℕ)
      → box_bounds (exact turn) (angle (pos c)) (angle d) (sides (pos l) (pos m))
        ≡ ok (about c d l m)
  unfolding box_bounds about
  about_lem c d l m = refl

  -- The condition on RA between two ends that are not negative.
  abbrev selects : ℕ → ℕ → ℕ → Bool
  selects lo hi r =
      if ltb hi lo then not (not (ltb r hi) && not (ltb lo r)) else not (ltb r lo) && not (ltb hi r)

  selects_ra-about :
      (c : ℕ) (d : ℤ) (l m r : ℕ)
      → c < turn
      → l < turn
      → selects_ra (about c d l m) r
        ≡ selects
            (if leb l c then c - l else turn + c - l)
            (if ltb (c + l) turn then c + l else c + l - turn)
            r
  unfolding selects_ra about box_of ra_condition holds
  selects_ra-about c d l m r hc hl = rw (west_lem c l hc hl, east_lem c l hc hl) (ground arith)

  -- A box that is less than half a turn to each side, about any RA: a row nearer in RA than the
  -- half-width is selected, and one that is farther is not, on either side of RA 0.
  pub box_selects :
      (c : ℕ) (d : ℤ) (l m r : ℕ) {b : BoxBounds (exact turn)}
      → c < turn
      → r < turn
      → 2 * l < turn
      → box_bounds (exact turn) (angle (pos c)) (angle d) (sides (pos l) (pos m)) ≡ ok b
      → (separation c r < l → selects_ra b r ≡ true) × (selects_ra b r ≡ true → separation c r ≤ l)
  unfolding separation
  box_selects c d l m r hc hr hl e =
      let same = ok-injective (sym (about_lem c d l m) ∙ e) in
      rw (← same, selects_ra-about c d l m r hc (omega arith)) (ground arith)
