-- ===== src/Mjd/Reads.antt =====
-- What the properties of ModifiedJulianDate give, whatever was read before.
use sims_utils.Base.{
  ℕ, ◌+◌, ◌≤◌, ◌≡◌, refl, Option, none, some, List, [], ◌∷◌, map, arith, length, length-append,
  is_some, if◌then◌else◌,
}
use sims_utils.Base.Result.{ok}
use sims_utils.Numpy.{Numpy}
use sims_utils.Astropy.{Astropy}
use sims_utils.Mjd.{
  Scale, tai, utc, ut1, dut1, tt, tdb, ModifiedJulianDate, from_tai, from_utc, modified_julian_date,
  seconds, read, reads,
}

module _ (N : Numpy) (A : Astropy N) where
  open N use {Object, literal}
  open A use {Time, tai_time, utc_time, tai_mjd, utc_mjd, tt_mjd, tdb_mjd, ut1_mjd, delta_ut1_utc}

  -- A date as it was given.
  pub data Given : Type 0 where
    in_tai in_utc : Object → Given

  unfoldable pub time_of : Given → Time
  time_of (in_tai x) = tai_time x
  time_of (in_utc x) = utc_time x

  unfoldable pub utc_of : Given → Object
  unfolding time_of
  utc_of (in_tai x) = utc_mjd (tai_time x)
  utc_of (in_utc x) = x

  -- Each scale as a function of the date alone.
  unfoldable pub scale_of : Given → Scale → Object
  unfolding time_of utc_of
  scale_of (in_tai x) tai = x
  scale_of (in_utc x) tai = tai_mjd (utc_time x)
  scale_of g utc = utc_of g
  scale_of g ut1 = elim (ut1_mjd (time_of g)) [ some x ↦ x | none ↦ utc_of g ]
  scale_of g dut1 = elim (delta_ut1_utc (time_of g)) [
    | some d ↦ seconds N A d
    | none ↦ literal "0.0"
  ]
  scale_of g tt = tt_mjd (time_of g)
  scale_of g tdb = tdb_mjd (time_of g)

  -- What is kept for a scale, if anything is, is that scale.
  abbrev pub Keeps : Option Object → Object → Type 0
  Keeps none x = Unit
  Keeps (some y) x = y ≡ x

  -- The scale that the date was given in is never computed.
  abbrev pub IsGiven : Given → ModifiedJulianDate N A → Type 0
  IsGiven (in_tai x) m = m.tai ≡ some x
  IsGiven (in_utc x) m = m.utc ≡ some x

  pub record IsCoherent (g : Given) (m : ModifiedJulianDate N A) : Type 0 where
    pub given : IsGiven g m
    pub same_time : m.time ≡ time_of g
    pub keeps_tai : Keeps m.tai (scale_of g tai)
    pub keeps_utc : Keeps m.utc (scale_of g utc)
    pub keeps_ut1 : Keeps m.ut1 (scale_of g ut1)
    pub keeps_dut1 : Keeps m.dut1 (scale_of g dut1)
    pub keeps_tt : Keeps m.tt (scale_of g tt)
    pub keeps_tdb : Keeps m.tdb (scale_of g tdb)

  -- One read gives the scale of the date, and what is kept stays right.
  pub read_lem :
      (g : Given) (q : Scale) (m : ModifiedJulianDate N A)
      → IsCoherent g m
      → ((read N A q m).0 ≡ scale_of g q) × IsCoherent g (read N A q m).1
  unfolding scale_of read
  read_lem (in_tai x) tai m h = ground arith
  read_lem (in_utc x) tai m h = ground arith
  read_lem _ _ m h = ground arith

  reads_lem :
      (g : Given) (qs : List Scale) (m : ModifiedJulianDate N A)
      → IsCoherent g m
      → (reads N A qs m).0 ≡ map (scale_of g) qs
  unfolding reads
  reads_lem g [] m h = refl
  reads_lem g (q ∷ qs) m h =
      let (e, h') = read_lem g q m h in cc (e, reads_lem g qs (read N A q m).1 h')

  -- TAI wins where both are given.
  unfoldable pub given_by : Option Object → Option Object → Option Given
  given_by (some x) u = some (in_tai x)
  given_by none (some x) = some (in_utc x)
  given_by none none = none

  from_given :
      (t u : Option Object) {g : Given}
      → given_by t u ≡ some g
      → (m : ModifiedJulianDate N A) × (modified_julian_date N A t u ≡ ok m) × IsCoherent g m
  unfolding given_by modified_julian_date scale_of
  from_given (some x) u e = (from_tai N A x, refl, ground arith)
  from_given none (some x) e = (from_utc N A x, refl, ground arith)
  from_given none none e = cc

  -- A date that is given in TAI or in UTC (TAI wins where both are) is built, and any sequence of
  -- reads of its properties gives, read by read, the scale of that date: what was read before,
  -- and what the object keeps, makes no difference.
  pub reads-eq-map :
      (t u : Option Object) {g : Given} (qs : List Scale)
      → given_by t u ≡ some g
      → (m : ModifiedJulianDate N A) × (modified_julian_date N A t u ≡ ok m)
        × ((reads N A qs m).0 ≡ map (scale_of g) qs)
  reads-eq-map t u {g} qs e = let (m, built, h) = from_given t u e in (m, built, reads_lem g qs m h)

  -- How many warnings the date has left: one for UT1 and one for UT1 - UTC.
  abbrev pending : ModifiedJulianDate N A → ℕ
  pending m = (if is_some m.ut1 then 0 else 1) + (if is_some m.dut1 then 0 else 1)

  read-pending :
      (q : Scale) (m : ModifiedJulianDate N A)
      → length (read N A q m).2 + pending (read N A q m).1 ≤ pending m
  unfolding read
  read-pending tai m = ground arith
  read-pending _ m = ground arith

  reads-pending :
      (qs : List Scale) (m : ModifiedJulianDate N A)
      → length (reads N A qs m).2 + pending (reads N A qs m).1 ≤ pending m
  unfolding reads
  reads-pending [] m = omega arith
  reads-pending (q ∷ qs) m = omega (
    arith,
    length-append {0} (read N A q m).2 (reads N A qs (read N A q m).1).2,
    read-pending q m,
    reads-pending qs (read N A q m).1,
  )

  -- However often its properties are read, a date warns at most twice.
  pub reads_warnings :
      (qs : List Scale) (m : ModifiedJulianDate N A) → length (reads N A qs m).2 ≤ 2
  reads_warnings qs m = ground (arith, reads-pending qs m)
