-- ===== src/Mjd.antt =====
-- python/lsst/sims/utils/ModifiedJulianDate.py: a date that computes each time scale when it is
-- first read, and keeps it.
pub mod Reads
pub mod Settled
use sims_utils.Base.{Bool, Option, none, some, List, [], ◌∷◌, ◌++◌}
use sims_utils.Base.Result.{Result, ok, err}
use sims_utils.Numpy.{Numpy}
use sims_utils.Astropy.{Astropy}

pub data MjdError : Type 0 where
  no_scale : MjdError

-- The six properties.
pub data Scale : Type 0 where
  tai utc ut1 dut1 tt tdb : Scale

module _ (N : Numpy) (A : Astropy N) where
  open N use {Object, literal}
  open A use {
    Time, tai_time, utc_time, tai_mjd, utc_mjd, tt_mjd, tdb_mjd, ut1_mjd, delta_ut1_utc,
    delta_value, delta_number, same_time,
  }

  -- The fields `_time`, `_tai`, `_utc`, ...; `none` is `None`.
  pub record ModifiedJulianDate : Type 0 where
    pub time : Time
    pub tai : Option Object
    pub utc : Option Object
    pub tt : Option Object
    pub tdb : Option Object
    pub ut1 : Option Object
    pub dut1 : Option Object

  unfoldable pub from_tai : Object → ModifiedJulianDate
  from_tai x = record {
    time = tai_time x;
    tai = some x;
    utc = none;
    tt = none;
    tdb = none;
    ut1 = none;
    dut1 = none;
  }

  unfoldable pub from_utc : Object → ModifiedJulianDate
  from_utc x = record {
    time = utc_time x;
    tai = none;
    utc = some x;
    tt = none;
    tdb = none;
    ut1 = none;
    dut1 = none;
  }

  -- `ModifiedJulianDate(TAI=..., UTC=...)`
  unfoldable pub modified_julian_date :
      Option Object → Option Object → Result MjdError ModifiedJulianDate
  unfolding from_tai from_utc
  modified_julian_date none none = err no_scale
  modified_julian_date (some x) u = ok (from_tai x)
  modified_julian_date none (some x) = ok (from_utc x)

  unfoldable pub mjd_eq : ModifiedJulianDate → ModifiedJulianDate → Bool
  mjd_eq m n = same_time m.time n.time

  -- A read gives the number, the object with what it now keeps, and the UTC in each warning.
  abbrev pub Read : Type 0
  Read = Object × ModifiedJulianDate × List Object

  unfoldable pub read_tai : ModifiedJulianDate → Read
  read_tai m = elim m.tai [
    | some x ↦ (x, m, [])
    | none ↦ (tai_mjd m.time, record m { tai = some (tai_mjd m.time) }, [])
  ]

  unfoldable pub read_utc : ModifiedJulianDate → Read
  read_utc m = elim m.utc [
    | some x ↦ (x, m, [])
    | none ↦ (utc_mjd m.time, record m { utc = some (utc_mjd m.time) }, [])
  ]

  unfoldable pub read_tt : ModifiedJulianDate → Read
  read_tt m = elim m.tt [
    | some x ↦ (x, m, [])
    | none ↦ (tt_mjd m.time, record m { tt = some (tt_mjd m.time) }, [])
  ]

  unfoldable pub read_tdb : ModifiedJulianDate → Read
  read_tdb m = elim m.tdb [
    | some x ↦ (x, m, [])
    | none ↦ (tdb_mjd m.time, record m { tdb = some (tdb_mjd m.time) }, [])
  ]

  -- The `except` of `UT1`: the warning reads `self.UTC`, and then the fallback does.
  unfoldable pub ut1_fallback : ModifiedJulianDate → Read
  unfolding read_utc
  ut1_fallback m =
      let (warned, m', _) = read_utc m in
      let (x, m'', _) = read_utc m' in (x, record m'' { ut1 = some x }, warned ∷ [])

  unfoldable pub read_ut1 : ModifiedJulianDate → Read
  unfolding ut1_fallback
  read_ut1 m = elim m.ut1 [
    | some x ↦ (x, m, [])
    | none ↦ elim (ut1_mjd m.time) [
      | some x ↦ (x, record m { ut1 = some x }, [])
      | none ↦ ut1_fallback m
    ]
  ]

  -- `intermediate_value.value`, or the value itself
  unfoldable pub seconds : A.Delta → Object
  seconds d = elim (delta_value d) [ some x ↦ x | none ↦ delta_number d ]

  -- The `except` of `dut1`.
  unfoldable pub dut1_fallback : ModifiedJulianDate → Read
  unfolding read_utc
  dut1_fallback m =
      let (warned, m', _) = read_utc m in
      (literal "0.0", record m' { dut1 = some (literal "0.0") }, warned ∷ [])

  unfoldable pub read_dut1 : ModifiedJulianDate → Read
  unfolding dut1_fallback seconds
  read_dut1 m = elim m.dut1 [
    | some x ↦ (x, m, [])
    | none ↦ elim (delta_ut1_utc m.time) [
      | some d ↦ (seconds d, record m { dut1 = some (seconds d) }, [])
      | none ↦ dut1_fallback m
    ]
  ]

  unfoldable pub read : Scale → ModifiedJulianDate → Read
  unfolding read_tai read_utc read_ut1 read_dut1 read_tt read_tdb
  read tai = read_tai
  read utc = read_utc
  read ut1 = read_ut1
  read dut1 = read_dut1
  read tt = read_tt
  read tdb = read_tdb

  -- Reads one after the other: the numbers, the object at the end, and all warnings.
  unfoldable pub reads :
      List Scale → ModifiedJulianDate → List Object × ModifiedJulianDate × List Object
  reads [] m = ([], m, [])
  reads (q ∷ qs) m =
      let (x, m', w) = read q m in let (xs, m'', ws) = reads qs m' in (x ∷ xs, m'', w ++ ws)
