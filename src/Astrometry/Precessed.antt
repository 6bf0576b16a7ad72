-- ===== src/Astrometry/Precessed.antt =====
-- Precession of arrays, point by point.
use sims_utils.Base.{◌≡◌, refl, ◌∙◌, Option, some, List, map}
use sims_utils.Base.Action.{>>=-ok}
use sims_utils.Base.Result.{ok}
use sims_utils.Numpy.{Numpy}
use sims_utils.Arrays.{array, map-map, same_length, pair_columns}
use sims_utils.Astropy.{Astropy}
use sims_utils.Palpy.Places.{Places}
use sims_utils.Mjd.{ModifiedJulianDate, tt as terrestrial, read}
use sims_utils.Mjd.Reads.{Given, scale_of, IsCoherent, read_lem}
use sims_utils.Coordinates.Vectors.{
  unit, spherical_from_vector, spherical_from_cartesian, cartesian_from_spherical-eq,
}
use sims_utils.Astrometry.Actions.{read_scale}
use sims_utils.Astrometry.Motion.{
  apply_precession_radians, precession_lengths, turned, turned_to, vectors,
}

module _ (N : Numpy) (A : Astropy N) (P : Places N) where
  open N use {Object, literal, add, sub, mul, div, sin, cos, arcsin, sqrt}

  -- The place of a point for the equinox of another date.
  unfoldable pub precessed : Object → Given N A → Object × Object → Object × Object
  precessed epoch g p =
      spherical_from_vector N
        (turned N A P (P.prenut epoch (scale_of N A g terrestrial)) (unit N p))

  lengths-eq :
      (ps : List (Object × Object)) (m : Option (ModifiedJulianDate N A))
      → precession_lengths N A P (array (map (λ p. p.0) ps)) (array (map (λ p. p.1) ps)) m
        ≡ (ok tt, m)
  unfolding precession_lengths
  lengths-eq ps m = simp (same_length (λ (p : Object × Object). p.0) (λ p. p.1) ps)

  vectors-eq :
      (ps : List (Object × Object))
      → vectors N A P (array (map (λ p. p.0) ps)) (array (map (λ p. p.1) ps)) ≡ ok (map (unit N) ps)
  unfolding vectors
  vectors-eq ps = rw (cartesian_from_spherical-eq N ps, vectors) refl

  turned_to-eq :
      (g : Given N A) (m : ModifiedJulianDate N A) (ps : List (Object × Object)) (epoch : Object)
      → IsCoherent N A g m
      → (m' : ModifiedJulianDate N A) × (turned_to N A P
            (array (map (λ p. p.0) ps))
            (array (map (λ p. p.1) ps))
            epoch
            (some m)
          ≡ (ok (pair_columns (map (precessed epoch g) ps)), some m'))
        × IsCoherent N A g m'
  unfolding turned_to precessed read_scale spherical_from_cartesian
  turned_to-eq g m ps epoch h =
      let (e, h') = read_lem N A g terrestrial m h in
      (
        (read N A terrestrial m).1,
        simp (
          e,
          vectors-eq ps,
          map-map (turned N A P (P.prenut epoch (scale_of N A g terrestrial))) (unit N) ps,
          map-map (spherical_from_vector N)
              (λ p. turned N A P (P.prenut epoch (scale_of N A g terrestrial)) (unit N p)) ps,
        ),
        h',
      )

  -- With a date, `_applyPrecession` of the columns of a list of places turns each place by palpy's
  -- matrix for that date, whatever the date's cache holds, and the cache still holds the date's own
  -- scales.
  pub apply_precession-eq :
      (g : Given N A) (m : ModifiedJulianDate N A) (ps : List (Object × Object)) (epoch : Object)
      → IsCoherent N A g m
      → (m' : ModifiedJulianDate N A) × (apply_precession_radians N A P
            (array (map (λ p. p.0) ps))
            (array (map (λ p. p.1) ps))
            epoch
            (some m)
          ≡ (ok (pair_columns (map (precessed epoch g) ps)), some m'))
        × IsCoherent N A g m'
  unfolding apply_precession_radians
  apply_precession-eq g m ps epoch h =
      let (m', e, h') = turned_to-eq g m ps epoch h in
      let ra = array (map (λ p. p.0) ps) in
      let dec = array (map (λ p. p.1) ps) in
      (
        m',
        >>=-ok (precession_lengths N A P ra dec) (λ _. turned_to N A P ra dec epoch) (some m)
              (lengths-eq ps (some m))
            ∙ e,
        h',
      )
