-- ===== src/Observation/Keyed.antt =====
-- `_assignDictKeyedToBandpass`: the dict has an entry for each bandpass, and for nothing else.
use sims_utils.Base.{
  ℕ, suc, zero, ◌≡◌, refl, false, ◌||◌, Option, none, some, List, [], ◌∷◌, arith, length, is_some,
  get_elem?,
}
use sims_utils.Base.Result.{ok}
use sims_utils.Base.Dict.{IsKeyTest, lookup, insert, contains, lookup-insert}
use sims_utils.Numpy.{Numpy}
use sims_utils.Observation.State.{ByBandpass}
use sims_utils.Observation.Assign.{fill, dict_of, assign_dict_keyed_to_bandpass}

module _ (N : Numpy) where
  open N use {Object, same_key, iter?}

  -- The dict of a bandpass whose items are `bs`, or that has none.
  abbrev pub HasKeysOf : Object → Option (List Object) → ByBandpass N → Type 0
  HasKeysOf b none d = (v : Object) × (d ≡ (b, v) ∷ [])
  HasKeysOf b (some bs) d = (k : Object) → is_some (lookup same_key k d) ≡ contains same_key k bs

  -- What m5 or seeing may be beside a bandpass.
  abbrev pub IsKeyed : Option Object → Option (ByBandpass N) → Type 0
  IsKeyed bandpass none = Unit
  IsKeyed none (some d) = ⊥
  IsKeyed (some b) (some d) = HasKeysOf b (iter? b) d

  -- No bandpass is listed twice.
  abbrev pub IsDistinct : List Object → Type 0
  IsDistinct [] = Unit
  IsDistinct (b ∷ bs) = (contains same_key b bs ≡ false) × IsDistinct bs

  module _ (keyed : IsKeyTest same_key) where
    is_some-fill :
        (bs ms : List Object) (d : ByBandpass N) (k : Object)
        → length ms ≡ length bs
        → is_some (lookup same_key k (fill N bs ms d))
          ≡ (contains same_key k bs || is_some (lookup same_key k d))
    unfolding fill
    is_some-fill [] [] d k e = refl
    is_some-fill [] (m ∷ ms) d k e = absurd (omega arith)
    is_some-fill (b ∷ bs) [] d k e = absurd (omega arith)
    is_some-fill (b ∷ bs) (m ∷ ms) d k e =
        ground (
          arith,
          is_some-fill bs ms (insert same_key b m d) k,
          lookup-insert same_key keyed b k m d,
        )

    dict_of-HasKeysOf :
        (b v : Object) (bs vs : Option (List Object)) (d : ByBandpass N)
        → dict_of N b v bs vs ≡ ok d
        → HasKeysOf b bs d
    unfolding dict_of
    dict_of-HasKeysOf b v none none d e = (v, cc)
    dict_of-HasKeysOf b v none (some vs) d e = cc
    dict_of-HasKeysOf b v (some bs) none d e = cc
    dict_of-HasKeysOf b v (some bs) (some vs) d e = λ k. ground (arith, is_some-fill bs vs [] k)

    -- m5 or seeing, once assigned, has an entry for each bandpass of the object and no other.
    pub assign_dict_keyed_to_bandpass-IsKeyed :
        (bandpass v : Option Object) (d : Option (ByBandpass N))
        → assign_dict_keyed_to_bandpass N bandpass v ≡ ok d
        → IsKeyed bandpass d
    unfolding assign_dict_keyed_to_bandpass
    assign_dict_keyed_to_bandpass-IsKeyed bandpass v none e = tt
    assign_dict_keyed_to_bandpass-IsKeyed bandpass none (some d) e = cc
    assign_dict_keyed_to_bandpass-IsKeyed none (some v) (some d) e = cc
    assign_dict_keyed_to_bandpass-IsKeyed (some b) (some v) (some d) e =
        dict_of-HasKeysOf b v (iter? b) (iter? v) d (ground arith)

    lookup-fill_other :
        (bs ms : List Object) (d : ByBandpass N) (k : Object)
        → contains same_key k bs ≡ false
        → lookup same_key k (fill N bs ms d) ≡ lookup same_key k d
    unfolding fill
    lookup-fill_other [] ms d k e = refl
    lookup-fill_other (b ∷ bs) [] d k e = refl
    lookup-fill_other (b ∷ bs) (m ∷ ms) d k e = ground (
      arith,
      lookup-fill_other bs ms (insert same_key b m d) k,
      lookup-insert same_key keyed b k m d,
    )

    lookup-fill :
        (bs ms : List Object) (d : ByBandpass N) (i : ℕ) {b m : Object}
        → IsDistinct bs
        → get_elem? bs i ≡ some b
        → get_elem? ms i ≡ some m
        → lookup same_key b (fill N bs ms d) ≡ some m
    unfolding fill
    lookup-fill [] ms d i u e h = cc
    lookup-fill (b ∷ bs) [] d i u e h = cc
    lookup-fill (b ∷ bs) (m ∷ ms) d zero u e h = ground (
      arith,
      lookup-fill_other bs ms (insert same_key b m d) b u.0,
      lookup-insert same_key keyed b b m d,
      keyed.same_refl b,
    )
    lookup-fill (b ∷ bs) (m ∷ ms) d (suc i) u e h =
        lookup-fill bs ms (insert same_key b m d) i u.1 e h

    -- Where the bandpasses are a list without repetition and the values a list as long, each
    -- bandpass is given the value at its place.
    pub lookup-assign_dict_keyed_to_bandpass :
        (bandpass v : Object) (bs vs : List Object) (i : ℕ) {b m : Object}
        → iter? bandpass ≡ some bs
        → iter? v ≡ some vs
        → length vs ≡ length bs
        → IsDistinct bs
        → get_elem? bs i ≡ some b
        → get_elem? vs i ≡ some m
        → (d : ByBandpass N) × (assign_dict_keyed_to_bandpass N (some bandpass) (some v)
            ≡ ok (some d))
          × (lookup same_key b d ≡ some m)
    unfolding assign_dict_keyed_to_bandpass
    lookup-assign_dict_keyed_to_bandpass bandpass v bs vs i eb ev same u hb hm =
        (fill N bs vs [], ground arith, lookup-fill bs vs [] i u hb hm)
