-- ===== src/Sampling/Range.antt =====
-- Where the points of `samplePatchOnSphere` lie.
use sims_utils.Base.{
  ℕ, ◌≡◌, refl, ap, ◌∙◌, false, ◌||◌, some, List, [], ◌∷◌, map, arith, length, ◌⊎◌, inl, inr,
  Bool-cases,
}
use sims_utils.Base.Action.{◌>>◌, raise_when, pure}
use sims_utils.Base.Result.{ok}
use sims_utils.Arrays.{length-map, map-map}
use sims_utils.Healpix.Arrays.{All}
use sims_utils.Numpy.{Numpy}
use sims_utils.Sampling.Order.{
  IsOrdered, ends, turned_low, turned_high, part_below, part_above, arccos_between,
}
use sims_utils.Sampling.{
  Random, Sampling, around_pole, swept, wrapped, from_pole, drawn_dec, reaches_pole, draw,
  radians_given, patch, sample_patch_on_sphere,
}

-- numpy draws as many numbers as it is asked for, from 0 to 1.
pub record IsUniform (N : Numpy) (R : Random N) (ordered : IsOrdered N) : Type 0 where
  pub as_many : (n : ℕ) (s : R.Generator) → length (R.uniform n s).0 ≡ n
  pub in_unit :
      (n : ℕ) (s : R.Generator)
      → All (λ u. ordered.Le (N.literal "0.") u × ordered.Le u (N.literal "1.")) (R.uniform n s).0

module _ (N : Numpy) (ordered : IsOrdered N) where
  open N use {Object, literal, add, sub, mul, pi, degrees}
  open ordered use {Le}

  -- A Dec, and a RA, of the patch, in degrees: the RA is within the range, or a full turn above a
  -- number that is.
  abbrev pub IsDec : Object → Object → Object → Type 0
  IsDec theta delta x = Le (degrees (sub theta delta)) x × Le x (degrees (add theta delta))

  abbrev pub IsRa : Object → Object → Object → Type 0
  IsRa phi delta x =
      (y : Object) × Le (sub phi delta) y
      × Le y (add phi delta)
      × ((x ≡ degrees y) ⊎ (x ≡ degrees (add y (mul (literal "2.") pi))))

module _ (N : Numpy) (R : Random N) (ordered : IsOrdered N) (uniform : IsUniform N R ordered) where
  open N use {Object, literal, add, sub, mul, div, neg, lt, eq, pi, radians, degrees, cos, arccos}
  open ordered use {Le}

  abbrev IsInUnit : Object → Type 0
  IsInUnit x = Le (literal "0.") x × Le x (literal "1.")

  dec_lem :
      (theta delta v : Object)
      → Le (literal "0.") delta
      → reaches_pole N (sub (from_pole N theta) delta) (add (from_pole N theta) delta) ≡ false
      → Le (literal "0.") v × Le v (literal "1.")
      → IsDec N ordered theta delta
          (degrees (drawn_dec N (sub (from_pole N theta) delta) (add (from_pole N theta) delta) v))
  unfolding drawn_dec from_pole reaches_pole
  dec_lem theta delta v positive inside (low, high) =
      let a = sub (from_pole N theta) delta in
      let b = add (from_pole N theta) delta in
      let above : Le (literal "0.") a = ordered.unless_less a (literal "0.") (ground arith) in
      let below : Le b pi = ordered.unless_less pi b (ground arith) in
      let rises = ends N ordered (from_pole N theta) delta positive in
      let fall = ordered.cos_falls a b above rises below in
      let (p, q) = part_below N ordered v (cos b) (cos a) low high fall in
      let c = add (mul (neg v) (sub (cos a) (cos b))) (cos a) in
      let (p', q') = arccos_between N ordered a b c above rises below p q in
      let right = div pi (literal "2.0") in
      (
        ordered.degrees_rises _ _ (turned_low N ordered right theta delta (arccos c) q'),
        ordered.degrees_rises _ _ (turned_high N ordered right theta delta (arccos c) p'),
      )

  ra_lem :
      (phi delta u : Object)
      → Le (literal "0.") delta
      → Le (literal "0.") u × Le u (literal "1.")
      → IsRa N ordered phi delta (degrees (wrapped N (swept N phi delta u)))
  unfolding wrapped swept
  ra_lem phi delta u positive (low, high) =
      let y = swept N phi delta u in
      let (p, q) = part_above N ordered u phi delta low high positive in
      (
        y,
        p,
        q,
        elim (Bool-cases (lt (literal "0.") y || eq (literal "0.") y)) [
          | inl e ↦ inl (rw e refl)
          | inr e ↦ inr (rw e refl)
        ],
      )

  each_All :
      {X : Type 0} (f : X → Object) (In : X → Type 0) (Out : Object → Type 0) (xs : List X)
      → ((x : X) → In x → Out (f x))
      → All In xs
      → All Out (map f xs)
  each_All f In Out [] h hs = tt
  each_All f In Out (x ∷ xs) h (h', hs) = (h x h', each_All f In Out xs h hs)

  -- Where numbers are exactly an ordered group, a number from 0 to 1 makes one that is not negative
  -- smaller, degrees rise with radians, the cosine falls from 0 to pi and the arccosine undoes it
  -- there, and numpy draws numbers from 0 to 1: a patch that does not reach a pole, of a half width
  -- that is not negative, gets from samplePatchOnSphere as many RA and Dec as were asked for,
  -- whatever the state of numpy's generator was; every Dec is within the half width of the centre,
  -- and every RA is within it or a full turn above such a number.
  pub samples_in_patch :
      (phi theta delta seed : Object) (size : ℕ) (s : R.Generator)
      → Le (literal "0.") (radians delta)
      → reaches_pole N
          (sub (from_pole N (radians theta)) (radians delta))
          (add (from_pole N (radians theta)) (radians delta))
        ≡ false
      → (ra dec : List Object) × (s' : R.Generator) × (sample_patch_on_sphere N R
            (some phi)
            (some theta)
            (some delta)
            size
            seed
            s
          ≡ (ok (ra, dec), s'))
        × (length ra ≡ size)
        × (length dec ≡ size)
        × All (IsRa N ordered (radians phi) (radians delta)) ra
        × All (IsDec N ordered (radians theta) (radians delta)) dec
  unfolding sample_patch_on_sphere draw radians_given patch
  samples_in_patch phi theta delta seed size s positive inside =
      let first = R.uniform size (R.seeded seed) in
      let second = R.uniform size first.1 in
      let high = add (from_pole N (radians theta)) (radians delta) in
      let low = sub (from_pole N (radians theta)) (radians delta) in
      let angle : Object → Object = λ x. wrapped N (swept N (radians phi) (radians delta) x) in
      let ra = map degrees (map angle first.0) in
      let dec = map degrees (map (drawn_dec N low high) second.0) in
      let answer : Sampling N R (List Object × List Object) = pure (ra, dec) in
      (
        ra,
        dec,
        second.1,
        ap (λ b. (raise_when (λ _. b) around_pole >> answer) second.1) inside,
        length-map degrees (map angle first.0)
            ∙ length-map angle first.0
            ∙ uniform.as_many size (R.seeded seed),
        length-map degrees (map (drawn_dec N low high) second.0)
            ∙ length-map (drawn_dec N low high) second.0
            ∙ uniform.as_many size first.1,
        rw (map-map degrees angle first.0) (
            each_All (λ x. degrees (angle x)) IsInUnit
              (IsRa N ordered (radians phi) (radians delta)) first.0
              (λ u. ra_lem (radians phi) (radians delta) u positive)
              (uniform.in_unit size (R.seeded seed))),
        rw (map-map degrees (drawn_dec N low high) second.0) (
            each_All (λ x. degrees (drawn_dec N low high x)) IsInUnit
              (IsDec N ordered (radians theta) (radians delta)) second.0
              (λ v. dec_lem (radians theta) (radians delta) v positive inside)
              (uniform.in_unit size first.1)),
      )
