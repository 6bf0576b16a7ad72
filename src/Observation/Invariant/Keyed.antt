-- ===== src/Observation/Invariant/Keyed.antt =====
-- m5 and seeing belong to the present bandpass.
use sims_utils.Base.{◌≡◌, ◌⊎◌, Option-cases, inl, inr, Option, none, some, List, arith}
use sims_utils.Base.Result.{Result, ok, err, Result-cases}
use sims_utils.Base.Action.{◌>>◌, Triple, >>-Triple}
use sims_utils.Base.Dict.{IsKeyTest}
use sims_utils.Numpy.{Numpy}
use sims_utils.Astropy.{Astropy}
use sims_utils.Observation.State.{
  ObservationError, ByBandpass, ObservationMetaData, PhoSimMetaData, ObservationArgs,
}
use sims_utils.Observation.Assign.{
  Method, build_bounds, copy_pho_sim_meta_data, assign_pho_sim_meta_data, copy_mjd,
  copy_rot_sky_pos, copy_bandpass, check_seeing, copy_pointing, assign_dict_keyed_to_bandpass,
}
use sims_utils.Observation.Keyed.{IsKeyed, assign_dict_keyed_to_bandpass-IsKeyed}
use sims_utils.Observation.Methods.{
  set_pointing_ra, set_pointing_dec, set_bound_length, set_bound_type, set_rot_sky_pos, set_m5,
  assign_seeing, set_seeing, set_site, set_sky_brightness, set_mjd, set_bandpass_m5_and_seeing,
  set_pho_sim_meta_data, clear_for, initial, initial_mjd, initial_pho_sim, initial_arguments,
  initial_m5_and_seeing, build_missing_bounds, observation_meta_data,
}
use sims_utils.Observation.Steps.{
  Setter, pointing_ra, pointing_dec, bound_length, rot_sky_pos, bound_type, m5, seeing,
  sky_brightness, site, mjd, bandpass_m5_and_seeing, pho_sim_meta_data, apply, apply_all,
}
use sims_utils.Observation.Invariant.Rules.{apply_all-Triple, constructed}

module _ (N : Numpy) (A : Astropy N) where
  pub record HasKeys (o : ObservationMetaData N A) : Type 0 where
    pub m5 : IsKeyed N o.bandpass o.m5
    pub seeing : IsKeyed N o.bandpass o.seeing

  module _ (keyed : IsKeyTest N.same_key) where
    abbrev Anything : ObservationMetaData N A → Type 0
    Anything o = Unit

    abbrev Keeps : Method N A → Type 0
    Keeps m = Triple HasKeys m HasKeys

    copy_pho_sim_meta_data-HasKeys : (d : PhoSimMetaData N) → Keeps (copy_pho_sim_meta_data N A d)
    unfolding copy_pho_sim_meta_data copy_mjd copy_rot_sky_pos copy_bandpass check_seeing
        copy_pointing
    copy_pho_sim_meta_data-HasKeys d o h e = ground arith

    build_bounds-HasKeys : Keeps (build_bounds N A)
    unfolding build_bounds
    build_bounds-HasKeys o h e = ground arith

    module _ (v : Option N.Object) (o : ObservationMetaData N A) where
      abbrev assigned : Result ObservationError (Option (ByBandpass N))
      assigned = assign_dict_keyed_to_bandpass N o.bandpass v

      -- What is assigned fits the bandpass, or the call raises.
      assigned-IsKeyed :
          ((d : Option (ByBandpass N)) × (assigned ≡ ok d) × IsKeyed N o.bandpass d)
          ⊎ ((e : ObservationError) × (assigned ≡ err e))
      assigned-IsKeyed = elim (Result-cases assigned) [
        | inl (d, e) ↦ inl (d, e, assign_dict_keyed_to_bandpass-IsKeyed N keyed o.bandpass v d e)
        | inr raised ↦ inr raised
      ]

    set_m5-HasKeys : (v : Option N.Object) → Keeps (set_m5 N A v)
    unfolding set_m5
    set_m5-HasKeys v o h e = ground (arith, assigned-IsKeyed v o)

    -- Where the bandpass has just been replaced, assigning both dicts restores the property.
    assign_both-HasKeys :
        (v w : Option N.Object) → Triple Anything (set_m5 N A v >> assign_seeing N A w) HasKeys
    unfolding set_m5 assign_seeing
    assign_both-HasKeys v w o h e = ground (arith, assigned-IsKeyed v o, assigned-IsKeyed w o)

    assign_seeing-HasKeys : (v : Option N.Object) → Keeps (assign_seeing N A v)
    unfolding assign_seeing
    assign_seeing-HasKeys v o h e = ground (arith, assigned-IsKeyed v o)

    clear_for-HasKeys :
        (d : PhoSimMetaData N) (o : ObservationMetaData N A)
        → HasKeys o
        → HasKeys (clear_for N A d o)
    unfolding clear_for
    clear_for-HasKeys d o h = ground arith

    assign_pho_sim_meta_data-HasKeys :
        (d : PhoSimMetaData N) → Keeps (assign_pho_sim_meta_data N A d)
    unfolding assign_pho_sim_meta_data
    assign_pho_sim_meta_data-HasKeys d =
        >>-Triple HasKeys HasKeys HasKeys (copy_pho_sim_meta_data N A d) (build_bounds N A)
          (copy_pho_sim_meta_data-HasKeys d) build_bounds-HasKeys

    set_pho_sim_meta_data-HasKeys :
        (d : Option (PhoSimMetaData N)) → Keeps (set_pho_sim_meta_data N A d)
    unfolding set_pho_sim_meta_data
    set_pho_sim_meta_data-HasKeys none o h e = cc
    set_pho_sim_meta_data-HasKeys (some d) o h e =
        assign_pho_sim_meta_data-HasKeys d (clear_for N A d o) (clear_for-HasKeys d o h) e

    apply-HasKeys : (c : Setter N A) → Keeps (apply N A c)
    unfolding apply
    apply-HasKeys (pointing_ra v) o h e =
        let o' = record o { pointing_ra = some (N.radians v) } in
        unfold set_pointing_ra in ground (arith, build_bounds-HasKeys o')
    apply-HasKeys (pointing_dec v) o h e =
        let o' = record o { pointing_dec = some (N.radians v) } in
        unfold set_pointing_dec in ground (arith, build_bounds-HasKeys o')
    apply-HasKeys (bound_length v) o h e =
        let o' = record o { bound_length = some (N.radians v) } in
        unfold set_bound_length in ground (arith, build_bounds-HasKeys o')
    apply-HasKeys (bound_type v) o h e =
        let o' = record o { bound_type = v } in
        unfold set_bound_type in ground (arith, build_bounds-HasKeys o')
    apply-HasKeys (rot_sky_pos v) o h e = unfold set_rot_sky_pos in ground arith
    apply-HasKeys (m5 v) o h e = set_m5-HasKeys v o h e
    apply-HasKeys (seeing v) o h e = unfold set_seeing in ground (arith, assign_seeing-HasKeys v o)
    apply-HasKeys (sky_brightness v) o h e = unfold set_sky_brightness in ground arith
    apply-HasKeys (site v) o h e = unfold set_site in ground arith
    apply-HasKeys (mjd v) o h e = unfold set_mjd in ground arith
    apply-HasKeys (bandpass_m5_and_seeing b v w) o h e =
        let o' = record o { bandpass = b } in
        unfold set_bandpass_m5_and_seeing in ground (arith, assign_both-HasKeys v w o')
    apply-HasKeys (pho_sim_meta_data d) o h e = set_pho_sim_meta_data-HasKeys d o h e

    initial_arguments-HasKeys : (a : ObservationArgs N A) → Keeps (initial_arguments N A a)
    unfolding initial_arguments initial_mjd initial_pho_sim
    initial_arguments-HasKeys a o h e = elim (Option-cases a.pho_sim_meta_data) [
      | inl absent ↦ ground arith
      | inr (d, present) ↦ ground (
        arith,
        assign_pho_sim_meta_data-HasKeys d o,
        assign_pho_sim_meta_data-HasKeys d (initial_mjd N A a.mjd o).1,
      )
    ]

    initial_m5_and_seeing-HasKeys : (v w : Option N.Object) → Keeps (initial_m5_and_seeing N A v w)
    unfolding initial_m5_and_seeing
    initial_m5_and_seeing-HasKeys v w o h = assign_both-HasKeys v w o tt

    build_missing_bounds-HasKeys : Keeps (build_missing_bounds N A)
    unfolding build_missing_bounds
    build_missing_bounds-HasKeys o h e = ground (arith, build_bounds-HasKeys o)

    observation_meta_data-HasKeys :
        (a : ObservationArgs N A) {o : ObservationMetaData N A}
        → observation_meta_data N A a ≡ ok o
        → HasKeys o
    unfolding initial
    observation_meta_data-HasKeys a =
        constructed N A HasKeys HasKeys HasKeys HasKeys a (initial_arguments-HasKeys a)
          (initial_m5_and_seeing-HasKeys a.m5 a.seeing) build_missing_bounds-HasKeys
          (record { m5 = tt; seeing = tt })

    -- From the constructor through any sequence of setters that all succeed, where dict keys are
    -- told apart by an equivalence: m5, if it is set, has an entry for each of the present
    -- bandpasses and no other, and so has seeing. Neither is set where no bandpass is.
    pub run-HasKeys :
        (a : ObservationArgs N A) (cs : List (Setter N A)) {o : ObservationMetaData N A}
        → observation_meta_data N A a ≡ ok o
        → (apply_all N A cs o).0 ≡ ok tt
        → HasKeys (apply_all N A cs o).1
    run-HasKeys a cs {o} e =
        apply_all-Triple N A HasKeys apply-HasKeys cs o (observation_meta_data-HasKeys a e)
