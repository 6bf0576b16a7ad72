-- ===== src/Astrometry/Points.antt =====
-- The places of one point, as functions of its mean place and of the date: what the functions of
-- arrays and of mutable dates in Apparent and Observed are for.
use sims_utils.Base.{◌≡◌, refl, Bool, Option, none, some, List, [], ◌∷◌, map, length}
use sims_utils.Healpix.Arrays.{All, replicate}
use sims_utils.Numpy.{Numpy}
use sims_utils.Arrays.{length-map}
use sims_utils.Astropy.{Astropy}
use sims_utils.Palpy.Places.{Places, Star}
use sims_utils.Mjd.{tdb, utc, dut1, ModifiedJulianDate}
use sims_utils.Mjd.Reads.{Given, scale_of}
use sims_utils.Site.{Site}
use sims_utils.Observation.State.{ObservationMetaData}
use sims_utils.Astrometry.Apparent.{arcsec, or_zeros}
use sims_utils.Astrometry.Observed.{site_parameters}

module _ (N : Numpy) (A : Astropy N) (P : Places N) where
  open N use {Object, literal, div, cos}

  abbrev pub Place : Type 0
  Place = Object × Object

  unfoldable pub apparent_place : Object → Given N A → Star N → Place
  apparent_place year g s =
      P.mapqk s.ra s.dec (div s.pm_ra (cos s.dec)) s.pm_dec (arcsec N A P s.parallax) s.v_rad
        (P.mappa year (scale_of N A g tdb))

  unfoldable pub mean_place : Object → Given N A → Place → Place
  mean_place year g p = P.ampqk p.0 p.1 (P.mappa year (scale_of N A g tdb))

  unfoldable pub observed_place : List Object → Place → Place
  observed_place prms p = let (az, zd, ha, dec, ra) = P.aopqk p.0 p.1 prms in (ra, dec)

  unfoldable pub unobserved_place : List Object → Place → Place
  unobserved_place prms p = P.oapqk "r" p.0 p.1 prms

  -- What palpy computes for an observatory at a date, if it does.
  unfoldable pub parameters : Bool → Site N → Given N A → Option (List Object)
  parameters include_refraction s g =
      site_parameters N A P include_refraction s (scale_of N A g utc) (scale_of N A g dut1)
        (literal "0.5")

  -- A column of motions: that of the stars, or left out where all are at rest.
  abbrev pub IsColumn : (Star N → Object) → List (Star N) → Option (List Object) → Type 0
  IsColumn f stars none = All (λ s. f s ≡ literal "0.0") stars
  IsColumn f stars (some xs) = xs ≡ map f stars

  zeros-map :
      (f : Star N → Object) (stars : List (Star N))
      → All (λ s. f s ≡ literal "0.0") stars
      → replicate (length stars) (literal "0.0") ≡ map f stars
  zeros-map f [] h = refl
  zeros-map f (s ∷ stars) (h, hs) = cc (h, zeros-map f stars hs)

  pub or_zeros-IsColumn :
      (f g : Star N → Object) (stars : List (Star N)) (c : Option (List Object))
      → IsColumn f stars c
      → or_zeros N A P (length (map g stars)) c ≡ map f stars
  unfolding or_zeros
  or_zeros-IsColumn f g stars none h = rw (length-map g stars) (zeros-map f stars h)
  or_zeros-IsColumn f g stars (some xs) h = h

  -- An observation with this date.
  abbrev pub at_date : ObservationMetaData N A → ModifiedJulianDate N A → ObservationMetaData N A
  at_date o m = record o { mjd = some m }
