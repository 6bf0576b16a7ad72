-- ===== src/Compound/Shown.antt =====
-- What the dict of the `makeObsParams…` has under each of its keys.
use sims_utils.Base.{◌≡◌, refl, ◌∙◌, String, false, some, none, str_eq, List, [], ◌∷◌}
use sims_utils.Base.Dict.{Dict, lookup}
use sims_utils.Healpix.Arrays.{All}
use sims_utils.Numpy.{Numpy}
use sims_utils.Astropy.{Astropy}
use sims_utils.Palpy.{Palpy}
use sims_utils.Palpy.Places.{Places}
use sims_utils.Mjd.Reads.{in_tai}
use sims_utils.Coordinates.Vectors.{distance}
use sims_utils.Astrometry.Points.{Place}
use sims_utils.Compound.Angles.{Angles, single}
use sims_utils.Compound.Rotator.{full_turn}
use sims_utils.Compound.Vantage.{Vantage, horizon_point}
use sims_utils.Compound.Sky.{sky_above_point}
use sims_utils.Compound.Defaults.{entries}
use sims_utils.Compound.Params.{update, make_observation_metadata, Visit}
use sims_utils.Compound.Kwargs.{lookup-update, lookup-make}
use sims_utils.Compound.Made.{obs_temp}
use sims_utils.Compound.Measured.{metadata, moon, rot_sky}

-- The keys that calcObsDefaults fills
abbrev pub keys : List String
keys =
    "Opsim_moonra" ∷ "Opsim_moondec" ∷ "Opsim_sunalt" ∷ "Opsim_moonalt" ∷ "Opsim_dist2moon"
    ∷ "Opsim_filter" ∷ "pointingRA" ∷ "pointingDec" ∷ "Opsim_rotskypos" ∷ "Opsim_rottelpos"
    ∷ "Unrefracted_Altitude" ∷ "Unrefracted_Azimuth" ∷ []

-- `kwargs` give none of them.
abbrev pub LeavesKeys : {V : Type 0} → Dict String V → Type 0
LeavesKeys kwargs = All (λ k. lookup str_eq k kwargs ≡ none) keys

module _ (N : Numpy) (A : Astropy N) (P : Places N) (Q : Palpy N) {D : Type 0}
    (dtype : Angles N.Object → D) (v : Visit N A P Q dtype)
    (at : Vantage N A P Q (in_tai v.mjd) (obs_temp N A v.mjd v.longitude v.latitude)) where
  open N use {Object, literal, sub, div, neg, pi}

  -- A dict has a value and its dtype under a key.
  abbrev pub Has : Dict String (Angles Object × D) → String → Angles Object → Type 0
  Has d key x = lookup str_eq key d ≡ some (x, dtype x)

  -- The dict describes a place, with an altitude and azimuth and a rotation of the camera. The Moon
  -- is where altitude -pi/2 and azimuth 0 are.
  unfoldable pub IsMetadata :
      Dict String (Angles Object × D)
      → Place N A P
      → Angles Object
      → Angles Object
      → Object
      → Type 0
  IsMetadata d p alt az rot =
      let o = obs_temp N A v.mjd v.longitude v.latitude in
      let below = div (neg pi) (literal "2.") in
      let moon_at = sky_above_point N A P Q (in_tai v.mjd) o at false (below, literal "0.") in
      let parallactic = (horizon_point N A P Q (in_tai v.mjd) o at p).2 in
      Has d "pointingRA" (single p.0)
      × Has d "pointingDec" (single p.1)
      × Has d "Unrefracted_Altitude" alt
      × Has d "Unrefracted_Azimuth" az
      × Has d "Opsim_rottelpos" (single rot)
      × Has d "Opsim_rotskypos" (single (full_turn N (sub rot parallactic)))
      × Has d "Opsim_filter" (single v.band)
      × Has d "Opsim_moonra" (single moon_at.0)
      × Has d "Opsim_moondec" (single moon_at.1)
      × Has d "Opsim_dist2moon" (single (distance N moon_at.0 moon_at.1 p.0 p.1))
      × Has d "Opsim_moonalt" (single below)
      × Has d "Opsim_sunalt" (single below)

  -- The dict of the metadata of a place, with `kwargs` over it
  unfoldable pub given_params :
      Place N A P → Angles Object → Angles Object → Object → Dict String (Angles Object × D)
  given_params p alt az rot = make_observation_metadata dtype (
      update v.kwargs (
        metadata N A P Q (in_tai v.mjd) (obs_temp N A v.mjd v.longitude v.latitude) at p alt az rot
          v.band))

  -- `kwargs` without a key leave what the metadata have under it.
  pub lookup-given_params :
      (p : Place N A P) (alt az : Angles Object) (rot : Object) (key : String) (x : Angles Object)
      → lookup str_eq key v.kwargs ≡ none
      → lookup str_eq key (
          metadata N A P Q
            (in_tai v.mjd)
            (obs_temp N A v.mjd v.longitude v.latitude)
            at
            p
            alt
            az
            rot
            v.band)
        ≡ some x
      → Has (given_params p alt az rot) key x
  unfolding given_params
  lookup-given_params p alt az rot key x missing e =
      let d =
        metadata N A P Q (in_tai v.mjd) (obs_temp N A v.mjd v.longitude v.latitude) at p alt az rot
          v.band in
      lookup-make dtype key (update v.kwargs d) (lookup-update key v.kwargs d missing ∙ e)

  pub given_params-IsMetadata :
      (p : Place N A P) (alt az : Angles Object) (rot : Object)
      → LeavesKeys v.kwargs
      → IsMetadata (given_params p alt az rot) p alt az rot
  unfolding IsMetadata entries moon rot_sky
  given_params-IsMetadata p alt az rot
        (
          m_ra,
          (m_dec, (s_alt, (m_alt, (dist, (band, (ra, (dec, (sky, (tel, (up, (round, end))))))))))),
        ) =
      let has = lookup-given_params p alt az rot in
      (
        has "pointingRA" _ ra refl,
        has "pointingDec" _ dec refl,
        has "Unrefracted_Altitude" _ up refl,
        has "Unrefracted_Azimuth" _ round refl,
        has "Opsim_rottelpos" _ tel refl,
        has "Opsim_rotskypos" _ sky refl,
        has "Opsim_filter" _ band refl,
        has "Opsim_moonra" _ m_ra refl,
        has "Opsim_moondec" _ m_dec refl,
        has "Opsim_dist2moon" _ dist refl,
        has "Opsim_moonalt" _ m_alt refl,
        has "Opsim_sunalt" _ s_alt refl,
      )
