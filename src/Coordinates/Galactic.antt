-- ===== src/Coordinates/Galactic.antt =====
-- Galactic and equatorial coordinates, there and back.
use sims_utils.Base.{◌≡◌, refl, inl, inr, Bool-cases}
use sims_utils.Numpy.{Numpy}
use sims_utils.Palpy.{Palpy}
use sims_utils.Coordinates.{
  is_array, galactic_from_equatorial_radians, equatorial_from_galactic_radians,
  galactic_from_equatorial, equatorial_from_galactic,
}

-- In exact arithmetic palpy's two functions undo each other, as do the units, and neither makes an
-- array of a number or a number of an array.
pub record IsExact (N : Numpy) (P : Palpy N) : Type 0 where
  pub undo : (x : N.Object) → N.degrees (N.radians x) ≡ x
  pub redo : (x : N.Object) → N.radians (N.degrees x) ≡ x
  pub kept : (x y : N.Object) → is_array N P (P.eqgal x y).0 ≡ is_array N P x
  pub kept_vector : (x y : N.Object) → is_array N P (P.eqgal_vector x y).0 ≡ is_array N P x
  pub back : (x y : N.Object) → P.galeq (P.eqgal x y).0 (P.eqgal x y).1 ≡ (x, y)
  pub back_vector :
      (x y : N.Object) → P.galeq_vector (P.eqgal_vector x y).0 (P.eqgal_vector x y).1 ≡ (x, y)

module _ (N : Numpy) (P : Palpy N) where
  radians_back :
      IsExact N P
      → (x y : N.Object)
      → (let (long, lat) = galactic_from_equatorial_radians N P x y in
          equatorial_from_galactic_radians N P long lat ≡ (x, y))
  unfolding galactic_from_equatorial_radians equatorial_from_galactic_radians
  radians_back h x y = elim (Bool-cases (is_array N P x)) [
    | inl e ↦ rw (e, h.kept_vector x y, e) (h.back_vector x y)
    | inr e ↦ rw (e, h.kept x y, e) (h.back x y)
  ]

  -- Where palpy and the units of angle are exact, equatorialFromGalactic gives back the position
  -- that galacticFromEquatorial was given, for numbers and for arrays.
  pub galactic_round_trip :
      IsExact N P
      → (ra dec : N.Object)
      → (let (long, lat) = galactic_from_equatorial N P ra dec in
          equatorial_from_galactic N P long lat ≡ (ra, dec))
  unfolding galactic_from_equatorial equatorial_from_galactic
  galactic_round_trip h ra dec =
      let (long, lat) = galactic_from_equatorial_radians N P (N.radians ra) (N.radians dec) in
      rw
        (
          h.redo long,
          h.redo lat,
          radians_back h (N.radians ra) (N.radians dec),
          h.undo ra,
          h.undo dec,
        )
        refl
