-- ===== src/Healpix/Binning.antt =====
-- `_healbin` against the direct description of the map: in each pixel, the reduction of the values
-- of the points in it.
use sims_utils.Base.{
  ℕ, ◌+◌, ◌≤◌, ◌<◌, ◌≡◌, refl, sym, subst, ap, ◌∙◌, ◌↔◌, Bool, true, false, Option, some, List, [],
  ◌∷◌, map, arith, length, get_elem?, if◌then◌else◌, ◌==◌,
}
use sims_utils.Base.Dict.{contains}
use sims_utils.Base.Result.{ok}
use sims_utils.Numpy.{Numpy}
use sims_utils.Healpy.{Healpy, IsHealpy}
use sims_utils.Healpix.Arrays.{
  take_at-ok, take_at-All, slice, set_at-ok, replicate, All, IsSorted, get_elem?-replicate,
  length-replicate, get_elem?-map, All-from, All-below, All-Permᴰ, All-of-contains,
}
use sims_utils.Healpix.Grouping.{values_in, slice-eq-values_in, values_in-Permᴰ, contains-values_in}
use sims_utils.Healpix.{fill_pixels, mask_nan, bin_pixels, ra_dec_to_hpid_radians, healbin_radians}
use mathlib.Core.List.{Permᴰ}
use mathlib.Core.List.Permᴰ

module _ (N : Numpy) (H : Healpy N) where
  open N use {Object, add}
  open H use {nside2npix, unseen, is_nan, argsort, unique, search_left, search_right}

  module _ (reduce : List Object → Object) where
    -- What the map has for a pixel with these values.
    unfoldable pub pixel_of : List Object → Object
    pixel_of [] = unseen
    pixel_of (v ∷ vs) = let x = reduce (v ∷ vs) in if is_nan x then unseen else x

    module _ (values : List Object) (left right : ℕ → ℕ) where
      abbrev reduced : ℕ → Object
      reduced p = reduce (slice values (left p) (right p))

      -- What the loop writes: each listed pixel its reduction, and nothing else.
      fill_pixels-ok :
          (ps : List ℕ) (m : List Object)
          → All (λ k. k < length m) ps
          → (m' : List Object) × (fill_pixels N H reduce values ps (map left ps) (map right ps) m
              ≡ ok m')
            × ((p : ℕ)
                → get_elem? m' p ≡ (if contains ◌==◌ p ps then some (reduced p) else get_elem? m p))
      unfolding fill_pixels
      fill_pixels-ok [] m h = (m, refl, λ p. refl)
      fill_pixels-ok (k ∷ ps) m (h, hs) =
          let (m', e, l, at) = set_at-ok m k (reduced k) h in
          let (m'', e', at') = fill_pixels-ok ps m' (subst (λ n. All (λ j. j < n) ps) (sym l) hs) in
          (m'', rw e e', λ p. ground (arith, at p, at' p))

    -- The masked item of a pixel that is listed just where it has values.
    masked :
        (vs : List Object) (c : Bool) (o : Option Object)
        → (vs ≡ []) ↔ (c ≡ false)
        → o ≡ (if c then some (reduce vs) else some unseen)
        → (x : Object) × (o ≡ some x) × (mask_nan N H x ≡ pixel_of vs)
    unfolding pixel_of mask_nan
    masked [] true o h e = cc (h.0 refl)
    masked [] false o h e = (unseen, e, ground arith)
    masked (v ∷ vs) true o h e = (reduce (v ∷ vs), e, refl)
    masked (v ∷ vs) false o h e = cc (h.1 refl)

    -- The loop over sorted arrays: each item of the map comes from the values of its pixel.
    fill_pixels_sorted :
        IsHealpy N H
        → (base : Object) (n : ℕ) (ids : List ℕ) (vs : List Object) → base ≡ unseen
        → IsSorted ids
        → length ids ≡ length vs
        → All (λ k. k < n) ids
        → (m : List Object) × (fill_pixels N H reduce vs
              (unique ids)
              (map (search_left ids) (unique ids))
              (map (search_right ids) (unique ids))
              (replicate n base)
            ≡ ok m)
          × ((p : ℕ)
              → p < n
              → (x : Object) × (get_elem? m p ≡ some x)
                × (mask_nan N H x ≡ pixel_of (values_in p ids vs)))
    fill_pixels_sorted h base n ids vs e sorted len all =
        let hit = All-of-contains (λ k. k < n) ids (unique ids) all (h.unique_contains ids) in
        let (m, e', at) =
          fill_pixels-ok vs (search_left ids) (search_right ids) (unique ids) (replicate n base)
            (subst (λ b. All (λ k. k < b) (unique ids)) (sym (length-replicate n base)) hit) in
        (
          m,
          e',
          λ p lt.
              masked (values_in p ids vs) (contains ◌==◌ p ids) (get_elem? m p)
                (contains-values_in p ids vs len)
                (at p
                  ∙ rw
                      (
                        h.unique_contains ids p,
                        slice-eq-values_in p ids vs (search_left ids p) (search_right ids p)
                            (h.left ids p sorted) (h.right ids p sorted) len,
                        get_elem?-replicate n base p lt,
                        e,
                      )
                      refl),
        )

  -- `_healbin` makes a map, and its item for pixel p is the reduction of the values of the points
  -- in p, in some order, with NaN masked, or UNSEEN if there are none. It asks that healpy and the
  -- array functions do what is documented of them, that 0 + UNSEEN is UNSEEN, that every point has
  -- a value, and that p is a pixel.
  pub healbin_radians_at :
      IsHealpy N H
      → (reduce : List Object → Object) (blank ra dec : Object) (nside : ℕ) (values : List Object)
        (p : ℕ)
      → add blank unseen ≡ unseen
      → length (ra_dec_to_hpid_radians N H nside ra dec) ≤ length values
      → p < nside2npix nside
      → (m : List Object) × (healbin_radians N H ra dec values nside reduce blank ≡ ok m)
        × (vs : List Object) × Permᴰ vs
            (values_in p (ra_dec_to_hpid_radians N H nside ra dec) values)
        × (get_elem? m p ≡ some (pixel_of reduce vs))
  unfolding bin_pixels healbin_radians ra_dec_to_hpid_radians
  healbin_radians_at h reduce blank ra dec nside values p e len lt =
      let hpids = ra_dec_to_hpid_radians N H nside ra dec in
      let is = argsort hpids in
      let perm = h.argsort_perm hpids in
      let inside =
        All-below (0 + length hpids) (length hpids) is (omega arith)
          (All-Permᴰ (λ k. k < 0 + length hpids) (Permᴰ.symm perm) (All-from 0 (length hpids))) in
      let (ids, e1, l1) = take_at-ok hpids is inside in
      let (vs, e2, l2) =
        take_at-ok values is (All-below (length hpids) (length values) is len inside) in
      let (m, e3, at) =
        fill_pixels_sorted reduce h (add blank unseen) (nside2npix nside) ids vs e
          (h.argsort_sorts hpids ids e1) (omega (arith, l1, l2))
          (take_at-All (λ k. k < nside2npix nside) hpids is (h.pixels nside _ ra) e1) in
      let (x, e4, e5) = at p lt in
      (
        map (mask_nan N H) m,
        rw (e1, e2, e3) refl,
        values_in p ids vs,
        values_in-Permᴰ p hpids values is perm e1 e2,
        get_elem?-map (mask_nan N H) m p e4 ∙ ap some e5,
      )
