-- ===== src/Astropy.antt =====
-- What ModifiedJulianDate takes from astropy.time.
use sims_utils.Base.{Bool, Option}
use sims_utils.Numpy.{Numpy}

pub record Astropy (N : Numpy) : Type 1 where
  pub Time : Type 0
  -- what `get_delta_ut1_utc` gives: a quantity with a `value`, or a plain float
  pub Delta : Type 0
  -- `Time(x, scale='tai', format='mjd')`, `Time(x, scale='utc', format='mjd')`
  pub tai_time : N.Object → Time
  pub utc_time : N.Object → Time
  -- `t.tai.mjd` and the others; `none` where the IERS table does not reach
  pub tai_mjd : Time → N.Object
  pub utc_mjd : Time → N.Object
  pub tt_mjd : Time → N.Object
  pub tdb_mjd : Time → N.Object
  pub ut1_mjd : Time → Option N.Object
  pub delta_ut1_utc : Time → Option Delta
  -- `d.value`; `none` where there is no such attribute, and then `d` itself is the number
  pub delta_value : Delta → Option N.Object
  pub delta_number : Delta → N.Object
  -- `t == u`
  pub same_time : Time → Time → Bool
