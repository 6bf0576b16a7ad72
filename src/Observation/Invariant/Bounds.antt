-- ===== src/Observation/Invariant/Bounds.antt =====
-- After every call that succeeds, `bounds` is what `_buildBounds` builds from the other fields.
use sims_utils.Base.{◌≡◌, refl, Option, none, some, List, arith, ◌⊎◌, inl, inr}
use sims_utils.Base.Result.{Result, ok, err}
use sims_utils.Base.Action.{◌>>◌, Triple, >>-Triple}
use sims_utils.Numpy.{Numpy}
use sims_utils.Astropy.{Astropy}
use sims_utils.Bounds.{Bounds}
use sims_utils.Bounds.Errors.{BoundsError}
use sims_utils.Observation.State.{ObservationMetaData, PhoSimMetaData, ObservationArgs, MjdValue}
use sims_utils.Observation.Assign.{
  Method, requested, build_bounds, assign_pho_sim_meta_data, copy_pho_sim_meta_data,
}
use sims_utils.Observation.Methods.{
  set_pointing_ra, set_pointing_dec, set_bound_length, set_bound_type, set_rot_sky_pos, set_m5,
  set_seeing, set_site, set_sky_brightness, set_mjd, set_bandpass_m5_and_seeing, initial_mjd,
  initial_pho_sim, initial_arguments, initial_m5_and_seeing, set_pho_sim_meta_data,
  observation_meta_data, build_missing_bounds, initial, clear_for,
}
use sims_utils.Observation.Steps.{
  Setter, pointing_ra, pointing_dec, bound_length, rot_sky_pos, bound_type, m5, seeing,
  sky_brightness, site, mjd, bandpass_m5_and_seeing, pho_sim_meta_data, apply, apply_all,
}
use sims_utils.Observation.Invariant.Rules.{apply_all-Triple, constructed}

module _ (N : Numpy) (A : Astropy N) where
  -- The bounds that stand are the bounds that are asked for, if any are.
  abbrev pub Fits : Option (Bounds N) → Option (Result BoundsError (Bounds N)) → Type 0
  Fits b none = Unit
  Fits b (some (ok c)) = b ≡ some c
  Fits b (some (err e)) = ⊥

  abbrev pub IsInSync : ObservationMetaData N A → Type 0
  IsInSync o =
      Fits o.bounds (requested N A o.bound_type o.bound_length o.pointing_ra o.pointing_dec)

  -- A method after which the bounds are in sync, if it does not raise.
  abbrev Syncs : Method N A → Type 0
  Syncs m = (o : ObservationMetaData N A) → (m o).0 ≡ ok tt → IsInSync (m o).1

  -- A method that keeps the bounds in sync, if it does not raise.
  abbrev KeepsSync : Method N A → Type 0
  KeepsSync m = Triple IsInSync m IsInSync

  build_bounds-Syncs : Syncs (build_bounds N A)
  unfolding build_bounds
  build_bounds-Syncs o e = ground arith

  >>-Syncs : (m k : Method N A) → Syncs k → Syncs (m >> k)
  >>-Syncs m k h o e = ground (arith, h (m o).1)

  assign_pho_sim_meta_data-Syncs : (d : PhoSimMetaData N) → Syncs (assign_pho_sim_meta_data N A d)
  unfolding assign_pho_sim_meta_data
  assign_pho_sim_meta_data-Syncs d =
      >>-Syncs (copy_pho_sim_meta_data N A d) (build_bounds N A) build_bounds-Syncs

  set_pho_sim_meta_data-Syncs :
      (d : Option (PhoSimMetaData N)) → Syncs (set_pho_sim_meta_data N A d)
  unfolding set_pho_sim_meta_data
  set_pho_sim_meta_data-Syncs none o e = cc
  set_pho_sim_meta_data-Syncs (some d) o e = assign_pho_sim_meta_data-Syncs d (clear_for N A d o) e

  apply-KeepsSync : (c : Setter N A) → KeepsSync (apply N A c)
  unfolding apply
  apply-KeepsSync (pointing_ra v) o h e =
      let o' = record o { pointing_ra = some (N.radians v) } in
      unfold set_pointing_ra in ground (arith, build_bounds-Syncs o')
  apply-KeepsSync (pointing_dec v) o h e =
      let o' = record o { pointing_dec = some (N.radians v) } in
      unfold set_pointing_dec in ground (arith, build_bounds-Syncs o')
  apply-KeepsSync (bound_length v) o h e =
      let o' = record o { bound_length = some (N.radians v) } in
      unfold set_bound_length in ground (arith, build_bounds-Syncs o')
  apply-KeepsSync (bound_type v) o h e =
      let o' = record o { bound_type = v } in
      unfold set_bound_type in ground (arith, build_bounds-Syncs o')
  apply-KeepsSync (pho_sim_meta_data d) o h e = set_pho_sim_meta_data-Syncs d o e
  apply-KeepsSync (rot_sky_pos v) o h e = unfold set_rot_sky_pos in ground arith
  apply-KeepsSync (m5 v) o h e = unfold set_m5 in ground arith
  apply-KeepsSync (seeing v) o h e = unfold set_seeing in ground arith
  apply-KeepsSync (sky_brightness v) o h e = unfold set_sky_brightness in h
  apply-KeepsSync (site v) o h e = unfold set_site in h
  apply-KeepsSync (mjd v) o h e = unfold set_mjd in ground arith
  apply-KeepsSync (bandpass_m5_and_seeing b v w) o h e =
      unfold set_bandpass_m5_and_seeing in ground arith

  -- While the constructor runs: no bounds yet, or bounds in sync.
  abbrev IsReady : ObservationMetaData N A → Type 0
  IsReady o = (o.bounds ≡ none) ⊎ IsInSync o

  abbrev KeepsReady : Method N A → Type 0
  KeepsReady m = Triple IsReady m IsReady

  initial_mjd-KeepsReady : (m : Option (MjdValue N A)) → KeepsReady (initial_mjd N A m)
  unfolding initial_mjd
  initial_mjd-KeepsReady none o h e = h
  initial_mjd-KeepsReady (some v) o h e = ground arith

  initial_pho_sim-KeepsReady : (d : Option (PhoSimMetaData N)) → KeepsReady (initial_pho_sim N A d)
  unfolding initial_pho_sim
  initial_pho_sim-KeepsReady none o h e = h
  initial_pho_sim-KeepsReady (some d) o h e = inr (assign_pho_sim_meta_data-Syncs d o e)

  initial_arguments-KeepsReady : (a : ObservationArgs N A) → KeepsReady (initial_arguments N A a)
  unfolding initial_arguments
  initial_arguments-KeepsReady a =
      >>-Triple IsReady IsReady IsReady (initial_mjd N A a.mjd)
        (initial_pho_sim N A a.pho_sim_meta_data) (initial_mjd-KeepsReady a.mjd)
        (initial_pho_sim-KeepsReady a.pho_sim_meta_data)

  initial_m5_and_seeing-KeepsReady :
      (v w : Option N.Object) → KeepsReady (initial_m5_and_seeing N A v w)
  unfolding initial_m5_and_seeing
  initial_m5_and_seeing-KeepsReady v w o h e = ground arith

  build_missing_bounds-Syncs : Triple IsReady (build_missing_bounds N A) IsInSync
  unfolding build_missing_bounds
  build_missing_bounds-Syncs o h e = ground (arith, build_bounds-Syncs o)

  observation_meta_data-IsInSync :
      (a : ObservationArgs N A) {o : ObservationMetaData N A}
      → observation_meta_data N A a ≡ ok o
      → IsInSync o
  unfolding initial
  observation_meta_data-IsInSync a =
      constructed N A IsReady IsReady IsReady IsInSync a (initial_arguments-KeepsReady a)
        (initial_m5_and_seeing-KeepsReady a.m5 a.seeing) build_missing_bounds-Syncs (inl refl)

  -- From the constructor through any sequence of setters that all succeed: where bound type,
  -- length and pointing are all set, `bounds` is the field of view that `getSpatialBounds` builds
  -- from their present values.
  pub run-IsInSync :
      (a : ObservationArgs N A) (cs : List (Setter N A)) {o : ObservationMetaData N A}
      → observation_meta_data N A a ≡ ok o
      → (apply_all N A cs o).0 ≡ ok tt
      → IsInSync (apply_all N A cs o).1
  run-IsInSync a cs {o} e =
      apply_all-Triple N A IsInSync apply-KeepsSync cs o (observation_meta_data-IsInSync a e)
