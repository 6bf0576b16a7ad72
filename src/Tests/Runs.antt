-- ===== src/Tests/Runs.antt =====
-- Runs of the constructor and of the setters, evaluated.
use sims_utils.Base.{◌≡◌, refl, some, ◌∷◌, []}
use sims_utils.Base.Result.{ok}
use sims_utils.Site.{where_given}
use sims_utils.Bounds.{get_spatial_bounds}
use sims_utils.Bounds.Box.{box_bounds}
use sims_utils.Bounds.Circle.{circle_bounds}
use sims_utils.Observation.State.{ObservationMetaData}
use sims_utils.Observation.Assign.{
  assign_dict_keyed_to_bandpass, build_bounds, assign_pho_sim_meta_data, copy_pho_sim_meta_data,
  copy_mjd, copy_rot_sky_pos, copy_bandpass, check_seeing, copy_pointing,
}
use sims_utils.Observation.Methods.{
  observation_meta_data, initialise, initial, set_bound_length, set_pointing_ra, set_bound_type,
  set_mjd, set_bandpass_m5_and_seeing,
}
use sims_utils.Observation.Steps.{apply_all, apply}
use sims_utils.Tests.Data.{N, A, pointing, from_opsim, changes, deg}

-- All that a run of these inputs calls.
unfoldable pub opened : ObservationMetaData N A
unfolding initialise initial where_given assign_dict_keyed_to_bandpass build_bounds
    get_spatial_bounds box_bounds
opened = (initialise N A pointing (initial N A pointing)).1

unfoldable pub opened_from_opsim : ObservationMetaData N A
unfolding opened assign_pho_sim_meta_data copy_pho_sim_meta_data copy_mjd copy_rot_sky_pos
    copy_bandpass check_seeing copy_pointing
opened_from_opsim = (initialise N A from_opsim (initial N A from_opsim)).1

pub pointing-opens : observation_meta_data N A pointing ≡ ok opened
unfolding opened observation_meta_data
pointing-opens = refl

pub from_opsim-opens : observation_meta_data N A from_opsim ≡ ok opened_from_opsim
unfolding opened_from_opsim observation_meta_data
from_opsim-opens = refl

pub changes-succeed : (apply_all N A changes opened).0 ≡ ok tt
unfolding opened apply_all apply circle_bounds set_bound_length set_pointing_ra set_bound_type
    set_mjd set_bandpass_m5_and_seeing
changes-succeed = refl

opened_m5 : opened.m5 ≡ some ((deg 1, deg 24) ∷ (deg 2, deg 25) ∷ [])
unfolding opened
opened_m5 = refl

opsim_bandpass : opened_from_opsim.bandpass ≡ some (deg 7)
unfolding opened_from_opsim
opsim_bandpass = refl
