-- ===== src/Healpy.antt =====
-- What the package takes from healpy, and from numpy for arrays of pixel ids, with what is
-- documented of it. Angles are in radians, and an array of angles is an object.
use sims_utils.Base.{ℕ, ◌≤◌, ◌<◌, ◌≡◌, List, Bool, length, ◌==◌}
use sims_utils.Base.Dict.{contains}
use sims_utils.Base.Result.{ok}
use sims_utils.Healpix.Arrays.{from, take_at, All, SplitsAt, IsSorted}
use sims_utils.Numpy.{Numpy}
use mathlib.Core.List.{Permᴰ}

pub record Healpy (N : Numpy) : Type 0 where
  pub ang2pix : ℕ → N.Object → N.Object → List ℕ
  pub pix2ang : ℕ → List ℕ → N.Object × N.Object
  pub nside2npix : ℕ → ℕ
  pub unseen : N.Object
  pub is_nan : N.Object → Bool
  pub argsort : List ℕ → List ℕ
  pub unique : List ℕ → List ℕ
  pub search_left : List ℕ → ℕ → ℕ
  pub search_right : List ℕ → ℕ → ℕ

-- A pixel is one of the map's; argsort is an order of all indices that sorts the array; unique has
-- the items of the array; searchsorted finds the two ends of a value's place in a sorted array.
pub record IsHealpy (N : Numpy) (H : Healpy N) : Type 0 where
  pub pixels :
      (nside : ℕ) (lat lon : N.Object) → All (λ k. k < H.nside2npix nside) (H.ang2pix nside lat lon)
  pub argsort_perm : (ks : List ℕ) → Permᴰ (H.argsort ks) (from 0 (length ks))
  pub argsort_sorts : (ks js : List ℕ) → take_at ks (H.argsort ks) ≡ ok js → IsSorted js
  pub unique_contains : (ks : List ℕ) (k : ℕ) → contains ◌==◌ k (H.unique ks) ≡ contains ◌==◌ k ks
  pub left :
      (ks : List ℕ) (k : ℕ)
      → IsSorted ks
      → SplitsAt (λ j. j < k) (λ j. k ≤ j) ks (H.search_left ks k)
  pub right :
      (ks : List ℕ) (k : ℕ)
      → IsSorted ks
      → SplitsAt (λ j. j ≤ k) (λ j. k < j) ks (H.search_right ks k)
