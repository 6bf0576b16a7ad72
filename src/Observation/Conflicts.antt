-- ===== src/Observation/Conflicts.antt =====
-- When the constructor accepts a phoSimMetaData beside its other arguments.
use sims_utils.Base.{◌≡◌, refl, subst, true, none, some, arith}
use sims_utils.Base.Result.{ok}
use sims_utils.Numpy.{Numpy}
use sims_utils.Astropy.{Astropy}
use sims_utils.Site.{where_given}
use sims_utils.Observation.State.{ObservationMetaData, PhoSimMetaData, ObservationArgs}
use sims_utils.Observation.Assign.{
  has_key, copy_pho_sim_meta_data, assign_pho_sim_meta_data, copy_mjd, copy_rot_sky_pos,
  copy_bandpass, check_seeing, copy_pointing,
}
use sims_utils.Observation.Methods.{
  initial, initial_mjd, initial_pho_sim, initial_arguments, observation_meta_data,
}
use sims_utils.Observation.Invariant.Rules.{constructed}

module _ (N : Numpy) (A : Astropy N) where
  -- An argument that the dict has too was not passed, and the pointing is whole or absent.
  pub record IsCompatible (a : ObservationArgs N A) (d : PhoSimMetaData N) : Type 0 where
    pub mjd : has_key "Opsim_expmjd" d ≡ true → a.mjd ≡ none
    pub rot_sky_pos : has_key "Opsim_rotskypos" d ≡ true → a.rot_sky_pos ≡ none
    pub bandpass : has_key "Opsim_filter" d ≡ true → a.bandpass_name ≡ none
    pub pointing_ra : has_key "pointingRA" d ≡ true → a.pointing_ra ≡ none
    pub pointing_dec : has_key "pointingDec" d ≡ true → a.pointing_dec ≡ none
    pub whole_pointing : has_key "pointingRA" d ≡ has_key "pointingDec" d

  -- The same on the object that the dict is assigned to.
  record Accepts (d : PhoSimMetaData N) (o : ObservationMetaData N A) : Type 0 where
    mjd : has_key "Opsim_expmjd" d ≡ true → o.mjd ≡ none
    rot_sky_pos : has_key "Opsim_rotskypos" d ≡ true → o.rot_sky_pos ≡ none
    bandpass : has_key "Opsim_filter" d ≡ true → o.bandpass ≡ none
    pointing_ra : has_key "pointingRA" d ≡ true → o.pointing_ra ≡ none
    pointing_dec : has_key "pointingDec" d ≡ true → o.pointing_dec ≡ none
    whole_pointing : has_key "pointingRA" d ≡ has_key "pointingDec" d

  assign_pho_sim_meta_data-Accepts :
      (d : PhoSimMetaData N) (o : ObservationMetaData N A)
      → (assign_pho_sim_meta_data N A d o).0 ≡ ok tt
      → Accepts d o
  unfolding assign_pho_sim_meta_data copy_pho_sim_meta_data copy_mjd copy_rot_sky_pos copy_bandpass
      check_seeing copy_pointing
  assign_pho_sim_meta_data-Accepts d o e = ground arith

  initial_arguments-IsCompatible :
      (a : ObservationArgs N A) (d : PhoSimMetaData N)
      → a.pho_sim_meta_data ≡ some d
      → (initial_arguments N A a (initial N A a)).0 ≡ ok tt
      → IsCompatible a d
  unfolding initial_arguments initial_mjd initial_pho_sim initial where_given
  initial_arguments-IsCompatible a d h e =
      ground (arith, assign_pho_sim_meta_data-Accepts d (initial_mjd N A a.mjd (initial N A a)).1)

  -- An object that the constructor builds from a phoSimMetaData was given no date, rotation,
  -- bandpass or pointing that the dict has too, and the dict has both coordinates or neither.
  pub observation_meta_data-IsCompatible :
      (a : ObservationArgs N A) (d : PhoSimMetaData N) {o : ObservationMetaData N A}
      → a.pho_sim_meta_data ≡ some d
      → observation_meta_data N A a ≡ ok o
      → IsCompatible a d
  observation_meta_data-IsCompatible a d h =
      constructed N A (λ o. o ≡ initial N A a) (λ o. IsCompatible a d) (λ o. IsCompatible a d)
        (λ o. IsCompatible a d) a
        (λ o same done.
          initial_arguments-IsCompatible a d h
            (subst (λ s. (initial_arguments N A a s).0 ≡ ok tt) same done))
        (λ o c done. c) (λ o c done. c) refl
