-- ===== src/Astrometry/Sun.antt =====
-- Where the Sun is, and how far a point is from it.
use sims_utils.Base.{List, [], ◌∷◌, map, length, ◌≡◌, refl, ap}
use sims_utils.Base.Result.{Result, ok, ◌>>=◌}
use sims_utils.Healpix.Arrays.{replicate}
use sims_utils.Numpy.{Numpy}
use sims_utils.Arrays.{Value, number, array, sequence, apply_to}
use sims_utils.Palpy.Places.{Places}
use sims_utils.Coordinates.Vectors.{
  VectorError, haversine, distance, haversine-map, distance-number,
}

module _ (N : Numpy) (P : Places N) where
  open N use {Object, literal, mul, radians, degrees}

  -- `params[4:7]`
  unfoldable pub items_4_to_7 : List Object → List Object
  items_4_to_7 (a ∷ b ∷ c ∷ d ∷ e ∷ f ∷ g ∷ xs) = e ∷ f ∷ g ∷ []
  items_4_to_7 (a ∷ b ∷ c ∷ d ∷ xs) = xs
  items_4_to_7 _ = []

  -- `_solarRaDec`, in radians
  unfoldable pub solar_ra_dec_radians : Object → Object → Object × Object
  unfolding items_4_to_7
  solar_ra_dec_radians mjd epoch =
      P.dcc2s (map (mul (literal "-1.0")) (items_4_to_7 (P.mappa epoch mjd)))

  unfoldable pub solar_ra_dec : Object → Object → Object × Object
  unfolding solar_ra_dec_radians
  solar_ra_dec mjd epoch =
      let (ra, dec) = solar_ra_dec_radians mjd epoch in (degrees ra, degrees dec)

  -- `_distanceToSun`, in radians
  unfoldable pub distance_to_sun_radians :
      Value Object → Value Object → Object → Object → Result VectorError (Value Object)
  unfolding solar_ra_dec_radians haversine
  distance_to_sun_radians (number ra) dec mjd epoch =
      let (sun_ra, sun_dec) = solar_ra_dec_radians mjd epoch in
      haversine N (number ra) dec (number sun_ra) (number sun_dec)
  distance_to_sun_radians (array ra) dec mjd epoch =
      let (sun_ra, sun_dec) = solar_ra_dec_radians mjd epoch in
      haversine N (array ra) dec (array (replicate (length ra) sun_ra))
        (array (replicate (length ra) sun_dec))
  distance_to_sun_radians (sequence ra) dec mjd epoch =
      let (sun_ra, sun_dec) = solar_ra_dec_radians mjd epoch in
      haversine N (sequence ra) dec (array (replicate (length ra) sun_ra))
        (array (replicate (length ra) sun_dec))

  unfoldable pub distance_to_sun :
      Value Object → Value Object → Object → Object → Result VectorError (Value Object)
  unfolding distance_to_sun_radians
  distance_to_sun ra dec mjd epoch = do
    d ← distance_to_sun_radians (apply_to radians ra) (apply_to radians dec) mjd epoch
    ok (apply_to degrees d)

  repeated :
      {S : Type 0} (f : S → Object) (x : Object) (ss : List S)
      → replicate (length (map f ss)) x ≡ map (λ s. x) ss
  repeated f x [] = refl
  repeated f x (s ∷ ss) = ap (λ xs. x ∷ xs) (repeated f x ss)

  -- Of two columns, `_distanceToSun` gives the column of the distances that it gives of each point
  -- as two numbers, which are those from the place of the Sun.
  pub distance_to_sun-eq :
      (ps : List (Object × Object)) (p : Object × Object) (mjd epoch : Object)
      → let sun = solar_ra_dec_radians mjd epoch in
        (distance_to_sun_radians (array (map (λ q. q.0) ps)) (array (map (λ q. q.1) ps)) mjd epoch
          ≡ ok (array (map (λ q. distance N q.0 q.1 sun.0 sun.1) ps)))
        × (distance_to_sun_radians (number p.0) (number p.1) mjd epoch
            ≡ ok (number (distance N p.0 p.1 sun.0 sun.1)))
  unfolding distance_to_sun_radians
  distance_to_sun-eq ps p mjd epoch =
      let sun = solar_ra_dec_radians mjd epoch in
      (
        rw
            (
              repeated (λ (p : Object × Object). p.0) sun.0 ps,
              repeated (λ (p : Object × Object). p.0) sun.1 ps,
            )
            (haversine-map N ps (λ p. p.0) (λ p. p.1) (λ _. sun.0) (λ _. sun.1)),
        distance-number N p.0 p.1 sun.0 sun.1,
      )
