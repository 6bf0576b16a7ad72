-- ===== src/Coordinates/Sidereal.antt =====
-- `calcLmstLast`: when it answers, and with what.
use sims_utils.Base.{ℕ, ◌≡◌, ◌≢◌, inl, inr, refl, Option, none, some, arith, Bool-cases, ◌==◌}
use sims_utils.Base.Result.{Result, ok, err, raise_if, ◌>>◌}
use sims_utils.Numpy.{Numpy}
use sims_utils.Palpy.{Palpy}
use sims_utils.Coordinates.{
  LengthError, different_lengths, longitude_array, lengths_differ, only_longitude, calc_lmst_last,
}

module _ (N : Numpy) (P : Palpy N) where
  open N use {Object}
  open P use {array_length}

  -- What the answer says of the lengths of longitude and date.
  unfoldable pub Explains : Option ℕ → Option ℕ → Result LengthError (Object × Object) → Type 0
  Explains none date (ok r) = Unit
  Explains none date (err e) = ⊥
  Explains (some n) none r = r ≡ err longitude_array
  Explains (some n) (some k) (ok r) = n ≡ k
  Explains (some n) (some k) (err e) = (n ≢ k) × (e ≡ different_lengths)

  explained :
      (long date : Option ℕ) (r : Object × Object)
      → Explains long date (
          raise_if (lengths_differ N P long date) different_lengths
          >> raise_if (only_longitude N P long date) longitude_array
          >> ok r)
  unfolding Explains
  explained none date r = tt
  explained (some n) none r = refl
  explained (some n) (some k) r = elim (Bool-cases (n == k)) [
    | inl e ↦ rw e (ground arith)
    | inr e ↦ rw e (λ same. ground arith, refl)
  ]

  -- calcLmstLast gives the two times for any longitude that is a number, and for one that is an
  -- array just where the date is an array of the same length; otherwise its exception says whether
  -- the date is no array or one of another length.
  pub calc_lmst_last-Explains :
      (mjd long : Object)
      → Explains (array_length long) (array_length mjd) (calc_lmst_last N P mjd long)
  unfolding Explains calc_lmst_last
  calc_lmst_last-Explains mjd long = explained (array_length long) (array_length mjd) _
