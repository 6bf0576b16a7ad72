-- ===== src/Compound/Vantage.antt =====
-- An observatory at a date, with what palpy computes of both.
use sims_utils.Base.{◌≡◌, refl, true, some, List}
use sims_utils.Base.Result.{ok}
use sims_utils.Numpy.{Numpy}
use sims_utils.Astropy.{Astropy}
use sims_utils.Palpy.{Palpy}
use sims_utils.Palpy.Places.{Places}
use sims_utils.Mjd.{ModifiedJulianDate, read, ut1}
use sims_utils.Mjd.Reads.{Given, IsCoherent, scale_of, read_lem}
use sims_utils.Coordinates.{calc_lmst_last}
use sims_utils.Site.{Site}
use sims_utils.Observation.State.{ObservationMetaData}
use sims_utils.Astrometry.Observed.{the_site}
use sims_utils.Astrometry.Points.{Place, parameters, at_date}
use sims_utils.FocalPlane.Points.{seen}
use sims_utils.Compound.Horizon.{local_apparent_time, times}

module _ (N : Numpy) (A : Astropy N) (P : Places N) (Q : Palpy N) where
  open N use {Object, literal, sub, mul, radians}

  -- The site of an observation is there, with its longitude and its latitude, and palpy computes its
  -- parameters and its sidereal times at the date.
  pub record Vantage (g : Given N A) (o : ObservationMetaData N A) : Type 0 where
    pub site : Site N
    pub longitude : Object
    pub latitude : Object
    pub prms : List Object
    pub lmst : Object
    pub last : Object
    pub has_site : o.site ≡ some site
    pub has_longitude : site.longitude_rad ≡ some longitude
    pub has_latitude : site.latitude_rad ≡ some latitude
    pub computed : parameters N A P true site g ≡ some prms
    pub timed : calc_lmst_last N Q (scale_of N A g ut1) longitude ≡ ok (lmst, last)

  module _ (g : Given N A) (o : ObservationMetaData N A) (at : Vantage g o) where
    -- Altitude, azimuth and parallactic angle of a place
    unfoldable pub horizon_point : Place N A P → Object × Object × Object
    horizon_point p =
        let q = seen N A P at.prms g p in
        let h = P.altaz (sub (radians (mul at.last (literal "15.0"))) q.0) q.1 at.latitude in
        (h.alt, h.az, h.pa)

    pub the_site-eq :
        (m : ModifiedJulianDate N A)
        → the_site N A P (at_date N A P o m) ≡ (ok at.site, at_date N A P o m)
    the_site-eq m = rw at.has_site refl

    pub local_apparent_time-eq :
        (m : ModifiedJulianDate N A)
        → IsCoherent N A g m
        → (m' : ModifiedJulianDate N A) × (local_apparent_time N A P Q (at_date N A P o m)
            ≡ (ok at.last, at_date N A P o m'))
          × IsCoherent N A g m'
    unfolding local_apparent_time
    local_apparent_time-eq m h =
        let (e, h') = read_lem N A g ut1 m h in
        ((read N A ut1 m).1, simp (at.has_site, at.has_longitude, e, at.timed, times), h')
