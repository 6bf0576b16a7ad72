-- ===== src/Mjd/Settled.antt =====
-- A ModifiedJulianDate after all of its properties have been read.
use sims_utils.Base.{◌≡◌, refl, true, Option, List, [], ◌∷◌, arith, is_some, ◌⊎◌, inl, inr, subst}
use sims_utils.Numpy.{Numpy}
use sims_utils.Astropy.{Astropy}
use sims_utils.Mjd.{Scale, tai, utc, ut1, dut1, tt, tdb, ModifiedJulianDate, read, reads}

module _ (N : Numpy) (A : Astropy N) where
  -- What the date keeps of a scale
  unfoldable kept : Scale → ModifiedJulianDate N A → Option N.Object
  kept tai m = m.tai
  kept utc m = m.utc
  kept ut1 m = m.ut1
  kept dut1 m = m.dut1
  kept tt m = m.tt
  kept tdb m = m.tdb

  abbrev IsKept : Scale → ModifiedJulianDate N A → Type 0
  IsKept q m = is_some (kept q m) ≡ true

  -- A read keeps its own scale, and whatever was kept.
  read-IsKept : (q : Scale) (m : ModifiedJulianDate N A) → IsKept q (read N A q m).1
  unfolding kept read
  read-IsKept tai m = ground arith
  read-IsKept utc m = ground arith
  read-IsKept ut1 m = ground arith
  read-IsKept dut1 m = ground arith
  read-IsKept tt m = ground arith
  read-IsKept tdb m = ground arith

  read_keeps : (q r : Scale) (m : ModifiedJulianDate N A) → IsKept q m → IsKept q (read N A r m).1
  unfolding kept read
  read_keeps q tai m h = ground arith
  read_keeps q utc m h = ground arith
  read_keeps q ut1 m h = ground arith
  read_keeps q dut1 m h = ground arith
  read_keeps q tt m h = ground arith
  read_keeps q tdb m h = ground arith

  -- A read of a scale that is kept changes nothing and warns of nothing.
  read_again :
      (q : Scale) (m : ModifiedJulianDate N A)
      → IsKept q m
      → ((read N A q m).1 ≡ m) × ((read N A q m).2 ≡ [])
  unfolding kept read
  read_again tai m h = ground arith
  read_again utc m h = ground arith
  read_again ut1 m h = ground arith
  read_again dut1 m h = ground arith
  read_again tt m h = ground arith
  read_again tdb m h = ground arith

  abbrev pub IsIn : Scale → List Scale → Type 0
  IsIn q [] = ⊥
  IsIn q (r ∷ rs) = (q ≡ r) ⊎ IsIn q rs

  reads_keep :
      (q : Scale) (rs : List Scale) (m : ModifiedJulianDate N A)
      → IsKept q m
      → IsKept q (reads N A rs m).1
  unfolding reads
  reads_keep q [] m h = h
  reads_keep q (r ∷ rs) m h = reads_keep q rs (read N A r m).1 (read_keeps q r m h)

  reads-IsKept :
      (q : Scale) (qs : List Scale) (m : ModifiedJulianDate N A)
      → IsIn q qs
      → IsKept q (reads N A qs m).1
  unfolding reads
  reads-IsKept q [] m h = elim h [ ]
  reads-IsKept q (r ∷ rs) m (inl e) =
      reads_keep q rs (read N A r m).1 (subst (λ p. IsKept q (read N A p m).1) e (read-IsKept q m))
  reads-IsKept q (r ∷ rs) m (inr h) = reads-IsKept q rs (read N A r m).1 h

  reads_again :
      (rs : List Scale) (m : ModifiedJulianDate N A)
      → ((q : Scale) → IsKept q m)
      → ((reads N A rs m).1 ≡ m) × ((reads N A rs m).2 ≡ [])
  unfolding reads
  reads_again [] m h = (refl, refl)
  reads_again (r ∷ rs) m h =
      let (same, quiet) = read_again r m (h r) in
      let (same', quiet') = reads_again rs m h in (rw same same', rw (same, quiet, quiet') refl)

  -- Once each property of a date has been read, in any order and any number of times, no sequence of
  -- further reads changes the object or warns.
  pub reads_settle :
      (qs rs : List Scale) (m : ModifiedJulianDate N A)
      → ((q : Scale) → IsIn q qs)
      → ((reads N A rs (reads N A qs m).1).1 ≡ (reads N A qs m).1)
        × ((reads N A rs (reads N A qs m).1).2 ≡ [])
  reads_settle qs rs m every =
      reads_again rs (reads N A qs m).1 (λ q. reads-IsKept q qs m (every q))
