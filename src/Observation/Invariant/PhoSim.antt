-- ===== src/Observation/Invariant/PhoSim.antt =====
-- What phoSimMetaData brings is what the object has: no setter overwrites it.
use sims_utils.Base.{◌≡◌, refl, Option, none, some, List, arith, String, str_eq}
use sims_utils.Base.Result.{ok}
use sims_utils.Base.Action.{Triple, >>-Triple}
use sims_utils.Base.Dict.{lookup}
use sims_utils.Numpy.{Numpy}
use sims_utils.Astropy.{Astropy}
use sims_utils.Mjd.{from_tai}
use sims_utils.Observation.State.{ObservationMetaData, PhoSimMetaData, ObservationArgs, MjdValue}
use sims_utils.Observation.Assign.{
  Method, build_bounds, copy_pho_sim_meta_data, assign_pho_sim_meta_data, copy_mjd,
  copy_rot_sky_pos, copy_bandpass, check_seeing, copy_pointing,
}
use sims_utils.Observation.Methods.{
  set_pointing_ra, set_pointing_dec, set_bound_length, set_bound_type, set_rot_sky_pos, set_m5,
  set_seeing, set_site, set_sky_brightness, set_mjd, set_bandpass_m5_and_seeing,
  set_pho_sim_meta_data, clear_for, initial, initial_mjd, initial_pho_sim, initial_arguments,
  initial_m5_and_seeing, build_missing_bounds, observation_meta_data,
}
use sims_utils.Observation.Steps.{
  Setter, pointing_ra, pointing_dec, bound_length, rot_sky_pos, bound_type, m5, seeing,
  sky_brightness, site, mjd, bandpass_m5_and_seeing, pho_sim_meta_data, apply, apply_all,
}
use sims_utils.Observation.Invariant.Rules.{apply_all-Triple, constructed}

module _ (N : Numpy) (A : Astropy N) where
  abbrev HoldsOf : Option N.Object → (N.Object → Type 0) → Type 0
  HoldsOf none P = Unit
  HoldsOf (some x) P = P x

  -- `P` holds of what phoSimMetaData has under the key, if it has anything there.
  abbrev pub Brings : Option (PhoSimMetaData N) → String → (N.Object → Type 0) → Type 0
  Brings none key P = Unit
  Brings (some d) key P = HoldsOf (lookup str_eq key d) P

  pub record HasPhoSim (o : ObservationMetaData N A) : Type 0 where
    pub mjd : Brings o.pho_sim_meta_data "Opsim_expmjd" (λ x. o.mjd ≡ some (from_tai N A x))
    pub rot_sky_pos : Brings o.pho_sim_meta_data "Opsim_rotskypos" (λ x. o.rot_sky_pos ≡ some x)
    pub bandpass : Brings o.pho_sim_meta_data "Opsim_filter" (λ x. o.bandpass ≡ some x)
    pub pointing_ra : Brings o.pho_sim_meta_data "pointingRA" (λ x. o.pointing_ra ≡ some x)
    pub pointing_dec : Brings o.pho_sim_meta_data "pointingDec" (λ x. o.pointing_dec ≡ some x)

  abbrev Keeps : Method N A → Type 0
  Keeps m = Triple HasPhoSim m HasPhoSim

  abbrev Anything : ObservationMetaData N A → Type 0
  Anything o = Unit

  copy_pho_sim_meta_data-HasPhoSim :
      (d : PhoSimMetaData N) → Triple Anything (copy_pho_sim_meta_data N A d) HasPhoSim
  unfolding copy_pho_sim_meta_data copy_mjd copy_rot_sky_pos copy_bandpass check_seeing
      copy_pointing
  copy_pho_sim_meta_data-HasPhoSim d o h e = ground arith

  build_bounds-HasPhoSim : Keeps (build_bounds N A)
  unfolding build_bounds
  build_bounds-HasPhoSim o h e = ground arith

  assign_pho_sim_meta_data-HasPhoSim :
      (d : PhoSimMetaData N) → Triple Anything (assign_pho_sim_meta_data N A d) HasPhoSim
  unfolding assign_pho_sim_meta_data
  assign_pho_sim_meta_data-HasPhoSim d =
      >>-Triple Anything HasPhoSim HasPhoSim (copy_pho_sim_meta_data N A d) (build_bounds N A)
        (copy_pho_sim_meta_data-HasPhoSim d) build_bounds-HasPhoSim

  set_pho_sim_meta_data-HasPhoSim :
      (d : Option (PhoSimMetaData N)) → Keeps (set_pho_sim_meta_data N A d)
  unfolding set_pho_sim_meta_data
  set_pho_sim_meta_data-HasPhoSim none o h e = cc
  set_pho_sim_meta_data-HasPhoSim (some d) o h e =
      assign_pho_sim_meta_data-HasPhoSim d (clear_for N A d o) tt e

  apply-HasPhoSim : (c : Setter N A) → Keeps (apply N A c)
  unfolding apply
  apply-HasPhoSim (pointing_ra v) o h e =
      let o' = record o { pointing_ra = some (N.radians v) } in
      unfold set_pointing_ra in ground (arith, build_bounds-HasPhoSim o')
  apply-HasPhoSim (pointing_dec v) o h e =
      let o' = record o { pointing_dec = some (N.radians v) } in
      unfold set_pointing_dec in ground (arith, build_bounds-HasPhoSim o')
  apply-HasPhoSim (bound_length v) o h e =
      let o' = record o { bound_length = some (N.radians v) } in
      unfold set_bound_length in ground (arith, build_bounds-HasPhoSim o')
  apply-HasPhoSim (bound_type v) o h e =
      let o' = record o { bound_type = v } in
      unfold set_bound_type in ground (arith, build_bounds-HasPhoSim o')
  apply-HasPhoSim (rot_sky_pos v) o h e = unfold set_rot_sky_pos in ground arith
  apply-HasPhoSim (m5 v) o h e = unfold set_m5 in ground arith
  apply-HasPhoSim (seeing v) o h e = unfold set_seeing in ground arith
  apply-HasPhoSim (sky_brightness v) o h e = unfold set_sky_brightness in ground arith
  apply-HasPhoSim (site v) o h e = unfold set_site in ground arith
  apply-HasPhoSim (mjd v) o h e = unfold set_mjd in ground arith
  apply-HasPhoSim (bandpass_m5_and_seeing b v w) o h e =
      unfold set_bandpass_m5_and_seeing in ground arith
  apply-HasPhoSim (pho_sim_meta_data d) o h e = set_pho_sim_meta_data-HasPhoSim d o h e

  abbrev HasNoPhoSim : ObservationMetaData N A → Type 0
  HasNoPhoSim o = o.pho_sim_meta_data ≡ none

  initial_mjd-HasPhoSim :
      (m : Option (MjdValue N A)) → Triple HasNoPhoSim (initial_mjd N A m) HasPhoSim
  unfolding initial_mjd
  initial_mjd-HasPhoSim none o h e = ground arith
  initial_mjd-HasPhoSim (some v) o h e = ground arith

  initial_pho_sim-HasPhoSim : (d : Option (PhoSimMetaData N)) → Keeps (initial_pho_sim N A d)
  unfolding initial_pho_sim
  initial_pho_sim-HasPhoSim none o h e = h
  initial_pho_sim-HasPhoSim (some d) o h e = assign_pho_sim_meta_data-HasPhoSim d o tt e

  initial_m5_and_seeing-HasPhoSim : (v w : Option N.Object) → Keeps (initial_m5_and_seeing N A v w)
  unfolding initial_m5_and_seeing
  initial_m5_and_seeing-HasPhoSim v w o h e = ground arith

  build_missing_bounds-HasPhoSim : Keeps (build_missing_bounds N A)
  unfolding build_missing_bounds
  build_missing_bounds-HasPhoSim o h e = ground (arith, build_bounds-HasPhoSim o)

  observation_meta_data-HasPhoSim :
      (a : ObservationArgs N A) {o : ObservationMetaData N A}
      → observation_meta_data N A a ≡ ok o
      → HasPhoSim o
  unfolding initial_arguments initial
  observation_meta_data-HasPhoSim a =
      constructed N A HasNoPhoSim HasPhoSim HasPhoSim HasPhoSim a
        (>>-Triple HasNoPhoSim HasPhoSim HasPhoSim (initial_mjd N A a.mjd)
          (initial_pho_sim N A a.pho_sim_meta_data) (initial_mjd-HasPhoSim a.mjd)
          (initial_pho_sim-HasPhoSim a.pho_sim_meta_data))
        (initial_m5_and_seeing-HasPhoSim a.m5 a.seeing) build_missing_bounds-HasPhoSim refl

  -- From the constructor through any sequence of setters that all succeed: what the present
  -- phoSimMetaData has for the date, the rotation, the bandpass or the pointing is what the
  -- object has there. No other setter can replace it.
  pub run-HasPhoSim :
      (a : ObservationArgs N A) (cs : List (Setter N A)) {o : ObservationMetaData N A}
      → observation_meta_data N A a ≡ ok o
      → (apply_all N A cs o).0 ≡ ok tt
      → HasPhoSim (apply_all N A cs o).1
  run-HasPhoSim a cs {o} e =
      apply_all-Triple N A HasPhoSim apply-HasPhoSim cs o (observation_meta_data-HasPhoSim a e)
