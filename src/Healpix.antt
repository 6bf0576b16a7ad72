-- ===== src/Healpix.antt =====
-- python/lsst/sims/utils/healpyUtils.py: pixels of the sphere, and the map of the data in them.
pub mod Arrays
pub mod Grouping
pub mod Binning
pub mod RoundTrip
use sims_utils.Base.{ℕ, Bool, List, [], ◌∷◌, map, if◌then◌else◌}
use sims_utils.Base.Result.{Result, ok, err, ◌>>=◌}
use sims_utils.Numpy.{Numpy}
use sims_utils.Healpy.{Healpy}
use sims_utils.Healpix.Arrays.{IndexError, take_at, slice, set_at, replicate}

module _ (N : Numpy) (H : Healpy N) where
  open N use {Object, literal, add, sub, div, pi, radians, degrees}
  open H use {
    ang2pix, pix2ang, nside2npix, unseen, is_nan, argsort, unique, search_left, search_right,
  }

  abbrev pub half_pi : Object
  half_pi = div pi (literal "2.")

  -- `_hpid2RaDec`, in radians
  unfoldable pub hpid_to_ra_dec_radians : ℕ → List ℕ → Object × Object
  hpid_to_ra_dec_radians nside ids = let (lat, lon) = pix2ang nside ids in (lon, sub half_pi lat)

  unfoldable pub hpid_to_ra_dec : ℕ → List ℕ → Object × Object
  unfolding hpid_to_ra_dec_radians
  hpid_to_ra_dec nside ids =
      let (ra, dec) = hpid_to_ra_dec_radians nside ids in (degrees ra, degrees dec)

  -- `_raDec2Hpid`, in radians
  unfoldable pub ra_dec_to_hpid_radians : ℕ → Object → Object → List ℕ
  ra_dec_to_hpid_radians nside ra dec = ang2pix nside (sub half_pi dec) ra

  unfoldable pub ra_dec_to_hpid : ℕ → Object → Object → List ℕ
  unfolding ra_dec_to_hpid_radians
  ra_dec_to_hpid nside ra dec = ra_dec_to_hpid_radians nside (radians ra) (radians dec)

  -- The loop over the pixels that are hit, with the ends of each one's values.
  unfoldable pub fill_pixels :
      (List Object → Object)
      → List Object
      → List ℕ
      → List ℕ
      → List ℕ
      → List Object
      → Result IndexError (List Object)
  fill_pixels reduce values (idx ∷ pixids) (i ∷ left) (j ∷ right) m =
      set_at m idx (reduce (slice values i j)) >>= fill_pixels reduce values pixids left right
  fill_pixels reduce values _ _ _ m = ok m

  -- `mapVals[np.isnan(mapVals)] = hp.UNSEEN`, for one item
  unfoldable pub mask_nan : Object → Object
  mask_nan x = if is_nan x then unseen else x

  -- `_healbin` once each point has its pixel; `blank` is a zero of the array's dtype.
  unfoldable pub bin_pixels :
      (List Object → Object) → Object → ℕ → List ℕ → List Object → Result IndexError (List Object)
  unfolding fill_pixels mask_nan
  bin_pixels reduce blank nside hpids values =
      let order = argsort hpids in
      take_at hpids order >>= λ ids. take_at values order >>= λ vs.
      let pixids = unique ids in
      let left = map (search_left ids) pixids in
      let right = map (search_right ids) pixids in
      let m = replicate (nside2npix nside) (add blank unseen) in
      fill_pixels reduce vs pixids left right m >>= λ m'. ok (map mask_nan m')

  -- `_healbin`, in radians
  unfoldable pub healbin_radians :
      Object
      → Object
      → List Object
      → ℕ
      → (List Object → Object)
      → Object
      → Result IndexError (List Object)
  unfolding bin_pixels ra_dec_to_hpid_radians
  healbin_radians ra dec values nside reduce blank =
      bin_pixels reduce blank nside (ra_dec_to_hpid_radians nside ra dec) values

  unfoldable pub healbin :
      Object
      → Object
      → List Object
      → ℕ
      → (List Object → Object)
      → Object
      → Result IndexError (List Object)
  unfolding healbin_radians
  healbin ra dec values nside reduce blank =
      healbin_radians (radians ra) (radians dec) values nside reduce blank
