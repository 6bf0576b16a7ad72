-- ===== src/Astrometry/Moved.antt =====
-- Proper motion of arrays and of numbers, star by star.
use sims_utils.Base.{ℕ, ◌≡◌, ap, ◌∙◌, true, Option, some, List, map, length, ◌==◌, arith}
use sims_utils.Base.Action.{>>=-ok, ◌>>=◌}
use sims_utils.Base.Result.{ok}
use sims_utils.Numpy.{Numpy}
use sims_utils.Arrays.{
  Value, number, array, apply_to, combine, combine-map, map-map, length-map, pair_columns,
}
use sims_utils.Astropy.{Astropy}
use sims_utils.Palpy.Places.{Places, Star, IsElementwise}
use sims_utils.Mjd.{ModifiedJulianDate, tt as terrestrial, read}
use sims_utils.Mjd.Reads.{Given, scale_of, IsCoherent, read_lem}
use sims_utils.Astrometry.Actions.{read_scale, or_else, bad_shapes}
use sims_utils.Astrometry.Apparent.{Dated, arcsec}
use sims_utils.Astrometry.Motion.{
  Motion, apply_proper_motion_radians, proper_motion, pm_of_arrays, pm_of_numbers,
}

self : (n : ℕ) → (n == n) ≡ true
self n = ground arith

module _ (N : Numpy) (A : Astropy N) (P : Places N) where
  open N use {Object, literal, add, sub, mul, div, sin, cos, arcsin, sqrt}

  -- The place of a star at another date.
  unfoldable pub moved : Object → Given N A → Star N → Object × Object
  moved epoch g s =
      P.pm s.ra s.dec (div s.pm_ra (cos s.dec)) s.pm_dec (arcsec N A P s.parallax) s.v_rad epoch
        (P.epj (scale_of N A g terrestrial))

  abbrev pub motion_of : Star N → Motion N A P
  motion_of s = record {
    ra = number s.ra;
    dec = number s.dec;
    pm_ra = number s.pm_ra;
    pm_dec = number s.pm_dec;
    parallax = number s.parallax;
    v_rad = number s.v_rad;
  }

  abbrev pub motions_of : List (Star N) → Motion N A P
  motions_of stars = record {
    ra = array (map (λ s. s.ra) stars);
    dec = array (map (λ s. s.dec) stars);
    pm_ra = array (map (λ s. s.pm_ra) stars);
    pm_dec = array (map (λ s. s.pm_dec) stars);
    parallax = array (map (λ s. s.parallax) stars);
    v_rad = array (map (λ s. s.v_rad) stars);
  }

  -- The stars as palpy takes them.
  abbrev corrected : Star N → Star N
  corrected s = record s { pm_ra = div s.pm_ra (cos s.dec); parallax = arcsec N A P s.parallax }

  module _ (law : IsElementwise N P) where
    pm_corrected :
        (stars : List (Star N)) (from to : Object)
        → P.pm_vector
            (map (λ s. s.ra) stars)
            (map (λ s. s.dec) stars)
            (map (λ s. div s.pm_ra (cos s.dec)) stars)
            (map (λ s. s.pm_dec) stars)
            (map (λ s. arcsec N A P s.parallax) stars)
            (map (λ s. s.v_rad) stars)
            from
            to
          ≡ some (
              pair_columns (
                map
                  (λ s.
                    P.pm s.ra s.dec
                      (div s.pm_ra (cos s.dec))
                      s.pm_dec
                      (arcsec N A P s.parallax)
                      s.v_rad
                      from
                      to)
                  stars))
    pm_corrected stars from to =
        rw
          (
            map-map (λ (s : Star N). s.ra) corrected stars,
            map-map (λ (s : Star N). s.dec) corrected stars,
            map-map (λ (s : Star N). s.pm_ra) corrected stars,
            map-map (λ (s : Star N). s.pm_dec) corrected stars,
            map-map (λ (s : Star N). s.parallax) corrected stars,
            map-map (λ (s : Star N). s.v_rad) corrected stars,
            map-map (λ (s : Star N). P.pm s.ra s.dec s.pm_ra s.pm_dec s.parallax s.v_rad from to)
                corrected stars,
          )
          at (law.pm_each (map corrected stars) from to)

    -- The arguments of palpy that are not worked on before.
    abbrev in_arcsec : List (Star N) → Motion N A P
    in_arcsec stars = record (motions_of stars) {
      parallax = array (map (arcsec N A P) (map (λ s. s.parallax) stars));
    }

    quotients-eq :
        (stars : List (Star N)) (m : Option (ModifiedJulianDate N A))
        → or_else bad_shapes
            (combine div
              (array (map (λ s. s.pm_ra) stars))
              (apply_to cos (array (map (λ s. s.dec) stars))))
            m
          ≡ (ok (array (map (λ s. div s.pm_ra (cos s.dec)) stars)), m)
    unfolding apply_to
    quotients-eq stars m = simp (
      map-map cos (λ (s : Star N). s.dec) stars,
      combine-map div (λ (s : Star N). s.pm_ra) (λ s. cos s.dec) stars,
    )

    pm_of_arrays-eq :
        (stars : List (Star N)) (epoch date : Object) (m : Option (ModifiedJulianDate N A))
        → pm_of_arrays N A P
            (map (λ s. s.ra) stars)
            (array (map (λ s. div s.pm_ra (cos s.dec)) stars))
            (in_arcsec stars)
            epoch
            date
            m
          ≡ (
            ok (
              array (
                  map
                    (λ p. p.0)
                    (map
                      (λ s.
                        P.pm s.ra s.dec
                          (div s.pm_ra (cos s.dec))
                          s.pm_dec
                          (arcsec N A P s.parallax)
                          s.v_rad
                          epoch
                          date)
                      stars)),
              array (
                  map
                    (λ p. p.1)
                    (map
                      (λ s.
                        P.pm s.ra s.dec
                          (div s.pm_ra (cos s.dec))
                          s.pm_dec
                          (arcsec N A P s.parallax)
                          s.v_rad
                          epoch
                          date)
                      stars)),
            ),
            m,
          )
    unfolding pm_of_arrays
    pm_of_arrays-eq stars epoch date m = simp (
      length-map (λ (s : Star N). s.ra) stars,
      length-map (λ (s : Star N). s.dec) stars,
      length-map (λ (s : Star N). s.pm_ra) stars,
      length-map (λ (s : Star N). s.pm_dec) stars,
      map-map (arcsec N A P) (λ (s : Star N). s.parallax) stars,
      length-map (λ (s : Star N). arcsec N A P s.parallax) stars,
      length-map (λ (s : Star N). s.v_rad) stars,
      self (length stars),
      pm_corrected stars epoch date,
    )

    -- With a date, `_applyProperMotion` of the columns of a list of stars gives the columns of the
    -- places that palpy moves them to, and of one star given as numbers its place, both at the
    -- date that was given, whatever the date's cache holds; the cache still holds the date's own
    -- scales.
    pub apply_proper_motion-eq :
        (g : Given N A) (m : ModifiedJulianDate N A) (stars : List (Star N)) (s : Star N)
        (epoch : Object)
        → IsCoherent N A g m
        → (m' : ModifiedJulianDate N A) × (apply_proper_motion_radians N A P
              (motions_of stars)
              epoch
              (some m)
            ≡ (
              ok (
                array (map (λ p. p.0) (map (moved epoch g) stars)),
                array (map (λ p. p.1) (map (moved epoch g) stars)),
              ),
              some m',
            ))
          × (apply_proper_motion_radians N A P (motion_of s) epoch (some m)
              ≡ (ok (number (moved epoch g s).0, number (moved epoch g s).1), some m'))
          × IsCoherent N A g m'
    unfolding apply_proper_motion_radians proper_motion pm_of_numbers moved read_scale apply_to
        combine
    apply_proper_motion-eq g m stars s epoch h =
        let (e, h') = read_lem N A g terrestrial m h in
        let m' = (read N A terrestrial m).1 in
        let quotients = or_else bad_shapes (
          combine div (array (map (λ s. s.pm_ra) stars))
            (apply_to cos (array (map (λ s. s.dec) stars)))) in
        let next : Object → Value Object → Dated N A P (Value Object × Value Object) =
          λ date c. proper_motion N A P c (in_arcsec stars) epoch (P.epj date) in
        (
          m',
          ap (λ date. (quotients >>= next date) (some m')) e
              ∙ >>=-ok quotients (next (scale_of N A g terrestrial)) (some m')
                  (quotients-eq stars (some m'))
              ∙ pm_of_arrays-eq stars epoch (P.epj (scale_of N A g terrestrial)) (some m'),
          simp (e),
          h',
        )
