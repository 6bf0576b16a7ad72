-- ===== src/Healpix/RoundTrip.antt =====
-- A pixel's centre is in the pixel.
use sims_utils.Base.{ℕ, ◌≡◌, ap, ◌∙◌, List}
use sims_utils.Numpy.{Numpy}
use sims_utils.Healpy.{Healpy}
use sims_utils.Healpix.{
  half_pi, hpid_to_ra_dec_radians, hpid_to_ra_dec, ra_dec_to_hpid_radians, ra_dec_to_hpid,
}

module _ (N : Numpy) (H : Healpy N) where
  open N use {Object, sub, radians, degrees}
  open H use {ang2pix, pix2ang}

  -- If healpy finds a pixel again from its own angles, the two conversions of this file do too, in
  -- radians and in degrees: the two changes from colatitude to Dec undo each other, and so do the
  -- two changes of units. It asks that x = pi/2 - (pi/2 - x) and radians(degrees(x)) = x.
  pub hpid_round_trip :
      ((x : Object) → sub (half_pi N H) (sub (half_pi N H) x) ≡ x)
      → ((x : Object) → radians (degrees x) ≡ x)
      → (nside : ℕ) (ids : List ℕ) → ang2pix nside (pix2ang nside ids).0 (pix2ang nside ids).1 ≡ ids
      → (let (ra, dec) = hpid_to_ra_dec_radians N H nside ids in
          ra_dec_to_hpid_radians N H nside ra dec ≡ ids)
        × (let (ra, dec) = hpid_to_ra_dec N H nside ids in ra_dec_to_hpid N H nside ra dec ≡ ids)
  unfolding hpid_to_ra_dec hpid_to_ra_dec_radians ra_dec_to_hpid ra_dec_to_hpid_radians
  hpid_round_trip reflect undo nside ids again =
      let (lat, lon) = pix2ang nside ids in
      (
        ap (λ x. ang2pix nside x lon) (reflect lat) ∙ again,
        ap (λ x. ang2pix nside (sub (half_pi N H) x) (radians (degrees lon)))
              (undo (sub (half_pi N H) lat))
            ∙ ap (λ x. ang2pix nside x (radians (degrees lon))) (reflect lat)
            ∙ ap (ang2pix nside lat) (undo lon)
            ∙ again,
      )
