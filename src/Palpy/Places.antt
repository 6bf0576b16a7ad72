-- ===== src/Palpy/Places.antt =====
-- What AstrometryUtils.py and FocalPlaneUtils.py take from palpy. Arrays are lists of numbers;
-- `none` is an exception.
use sims_utils.Base.{◌≡◌, String, Option, none, some, List, [], ◌∷◌, map}
use sims_utils.Arrays.{pair_columns}
use sims_utils.Numpy.{Numpy}

-- Azimuth, altitude and parallactic angle, each with its first and second derivative.
pub record AltAz (A : Type 0) : Type 0 where
  pub az : A
  pub azd : A
  pub azdd : A
  pub alt : A
  pub altd : A
  pub altdd : A
  pub pa : A
  pub pad : A
  pub padd : A

pub record Places (N : Numpy) : Type 0 where
  -- the parameters of a date and of an observatory
  pub mappa : N.Object → N.Object → List N.Object
  pub aoppa :
      N.Object
      → N.Object
      → Option N.Object
      → Option N.Object
      → Option N.Object
      → N.Object
      → N.Object
      → Option N.Object
      → Option N.Object
      → Option N.Object
      → N.Object
      → Option N.Object
      → Option (List N.Object)
  -- mean place, proper motion, parallax and radial velocity to apparent place, and back
  pub mapqk :
      N.Object
      → N.Object
      → N.Object
      → N.Object
      → N.Object
      → N.Object
      → List N.Object
      → N.Object × N.Object
  pub mapqk_vector :
      List N.Object
      → List N.Object
      → List N.Object
      → List N.Object
      → List N.Object
      → List N.Object
      → List N.Object
      → Option (List N.Object × List N.Object)
  pub ampqk : N.Object → N.Object → List N.Object → N.Object × N.Object
  pub ampqk_vector :
      List N.Object → List N.Object → List N.Object → Option (List N.Object × List N.Object)
  -- apparent place to azimuth, zenith distance, hour angle, Dec and RA
  pub aopqk :
      N.Object → N.Object → List N.Object → N.Object × N.Object × N.Object × N.Object × N.Object
  pub aopqk_vector :
      List N.Object
      → List N.Object
      → List N.Object
      → Option (List N.Object × List N.Object × List N.Object × List N.Object × List N.Object)
  pub oapqk : String → N.Object → N.Object → List N.Object → N.Object × N.Object
  pub oapqk_vector :
      String
      → List N.Object
      → List N.Object
      → List N.Object
      → Option (List N.Object × List N.Object)
  pub de2h : N.Object → N.Object → Option N.Object → Option (N.Object × N.Object)
  pub de2h_vector :
      List N.Object → List N.Object → Option N.Object → Option (List N.Object × List N.Object)
  pub altaz : N.Object → N.Object → N.Object → AltAz N.Object
  pub altaz_vector : List N.Object → List N.Object → N.Object → Option (AltAz (List N.Object))
  -- the gnomonic projection about a point, and back
  pub ds2tp : N.Object → N.Object → N.Object → N.Object → Option (N.Object × N.Object)
  pub ds2tp_vector :
      List N.Object → List N.Object → N.Object → N.Object → Option (List N.Object × List N.Object)
  pub dtp2s : N.Object → N.Object → N.Object → N.Object → N.Object × N.Object
  pub dtp2s_vector :
      List N.Object → List N.Object → N.Object → N.Object → Option (List N.Object × List N.Object)
  -- a direction to longitude and latitude; refraction; precession; proper motion
  pub dcc2s : List N.Object → N.Object × N.Object
  pub refco :
      Option N.Object
      → Option N.Object
      → Option N.Object
      → Option N.Object
      → N.Object
      → Option N.Object
      → Option N.Object
      → N.Object
      → Option (N.Object × N.Object)
  pub refz : N.Object → N.Object → N.Object → N.Object
  pub refz_vector : List N.Object → N.Object → N.Object → List N.Object
  pub prenut :
      N.Object
      → N.Object
      → (N.Object × N.Object × N.Object)
        × (N.Object × N.Object × N.Object)
        × (N.Object × N.Object × N.Object)
  pub epj : N.Object → N.Object
  pub pm :
      N.Object
      → N.Object
      → N.Object
      → N.Object
      → N.Object
      → N.Object
      → N.Object
      → N.Object
      → N.Object × N.Object
  pub pm_vector :
      List N.Object
      → List N.Object
      → List N.Object
      → List N.Object
      → List N.Object
      → List N.Object
      → N.Object
      → N.Object
      → Option (List N.Object × List N.Object)

-- A column of each field.
abbrev pub alt_az_columns : {A S : Type 0} → (S → AltAz A) → List S → AltAz (List A)
alt_az_columns f ss = record {
  az = map (λ s. (f s).az) ss;
  azd = map (λ s. (f s).azd) ss;
  azdd = map (λ s. (f s).azdd) ss;
  alt = map (λ s. (f s).alt) ss;
  altd = map (λ s. (f s).altd) ss;
  altdd = map (λ s. (f s).altdd) ss;
  pa = map (λ s. (f s).pa) ss;
  pad = map (λ s. (f s).pad) ss;
  padd = map (λ s. (f s).padd) ss;
}

-- A star, or any point of the sky, with its motion.
pub record Star (N : Numpy) : Type 0 where
  pub ra : N.Object
  pub dec : N.Object
  pub pm_ra : N.Object
  pub pm_dec : N.Object
  pub parallax : N.Object
  pub v_rad : N.Object

-- All of the results, or none if one of them is missing.
abbrev pub all_given {ℓ} : {A : Type ℓ} → List (Option A) → Option (List A)
all_given [] = some []
all_given (none ∷ os) = none
all_given (some a ∷ os) = elim (all_given os) [ some as_ ↦ some (a ∷ as_) | none ↦ none ]

-- `f…Vector` does to each row what `f` does to one, and raises where `f` does for some row.
pub record IsElementwise (N : Numpy) (P : Places N) : Type 0 where
  pub mapqk_each :
      (stars : List (Star N)) (prms : List N.Object)
      → P.mapqk_vector
          (map (λ s. s.ra) stars)
          (map (λ s. s.dec) stars)
          (map (λ s. s.pm_ra) stars)
          (map (λ s. s.pm_dec) stars)
          (map (λ s. s.parallax) stars)
          (map (λ s. s.v_rad) stars)
          prms
        ≡ some (
            pair_columns
              (map (λ s. P.mapqk s.ra s.dec s.pm_ra s.pm_dec s.parallax s.v_rad prms) stars))
  pub ampqk_each :
      (ps : List (N.Object × N.Object)) (prms : List N.Object)
      → P.ampqk_vector (map (λ p. p.0) ps) (map (λ p. p.1) ps) prms
        ≡ some (pair_columns (map (λ p. P.ampqk p.0 p.1 prms) ps))
  pub aopqk_each :
      (ps : List (N.Object × N.Object)) (prms : List N.Object)
      → P.aopqk_vector (map (λ p. p.0) ps) (map (λ p. p.1) ps) prms
        ≡ some (
          map (λ p. (P.aopqk p.0 p.1 prms).0) ps,
          map (λ p. (P.aopqk p.0 p.1 prms).1) ps,
          map (λ p. (P.aopqk p.0 p.1 prms).2) ps,
          map (λ p. (P.aopqk p.0 p.1 prms).3) ps,
          map (λ p. (P.aopqk p.0 p.1 prms).4) ps,
        )
  pub oapqk_each :
      (ps : List (N.Object × N.Object)) (prms : List N.Object)
      → P.oapqk_vector "r" (map (λ p. p.0) ps) (map (λ p. p.1) ps) prms
        ≡ some (pair_columns (map (λ p. P.oapqk "r" p.0 p.1 prms) ps))
  pub pm_each :
      (stars : List (Star N)) (from to : N.Object)
      → P.pm_vector
          (map (λ s. s.ra) stars)
          (map (λ s. s.dec) stars)
          (map (λ s. s.pm_ra) stars)
          (map (λ s. s.pm_dec) stars)
          (map (λ s. s.parallax) stars)
          (map (λ s. s.v_rad) stars)
          from
          to
        ≡ some (
            pair_columns
              (map (λ s. P.pm s.ra s.dec s.pm_ra s.pm_dec s.parallax s.v_rad from to) stars))
  pub ds2tp_each :
      (ps : List (N.Object × N.Object)) (ra dec : N.Object)
      → P.ds2tp_vector (map (λ p. p.0) ps) (map (λ p. p.1) ps) ra dec
        ≡ elim (all_given (map (λ p. P.ds2tp p.0 p.1 ra dec) ps)) [
          | some xys ↦ some (pair_columns xys)
          | none ↦ none
        ]
  pub dtp2s_each :
      (ps : List (N.Object × N.Object)) (ra dec : N.Object)
      → P.dtp2s_vector (map (λ p. p.0) ps) (map (λ p. p.1) ps) ra dec
        ≡ some (pair_columns (map (λ p. P.dtp2s p.0 p.1 ra dec) ps))
  pub altaz_each :
      (ps : List (N.Object × N.Object)) (lat : N.Object)
      → P.altaz_vector (map (λ p. p.0) ps) (map (λ p. p.1) ps) lat
        ≡ some (alt_az_columns (λ p. P.altaz p.0 p.1 lat) ps)
