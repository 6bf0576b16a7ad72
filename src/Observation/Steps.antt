-- ===== src/Observation/Steps.antt =====
-- A use of an ObservationMetaData: any sequence of its setters, which stops where one raises.
use sims_utils.Base.{Option, List, [], ◌∷◌}
use sims_utils.Base.Action.{◌>>◌, pure}
use sims_utils.Numpy.{Numpy}
use sims_utils.Astropy.{Astropy}
use sims_utils.Site.{Site}
use sims_utils.Observation.State.{PhoSimMetaData, MjdValue}
use sims_utils.Observation.Assign.{Method}
use sims_utils.Observation.Methods.{
  set_pointing_ra, set_pointing_dec, set_bound_length, set_bound_type, set_rot_sky_pos, set_m5,
  set_seeing, set_site, set_sky_brightness, set_mjd, set_bandpass_m5_and_seeing,
  set_pho_sim_meta_data,
}
use Prim.Native.String.{String}

module _ (N : Numpy) (A : Astropy N) where
  open N use {Object}

  -- A setter with what is assigned.
  pub data Setter : Type 0 where
    pointing_ra pointing_dec bound_length rot_sky_pos : Object → Setter
    bound_type : Option String → Setter
    m5 seeing sky_brightness : Option Object → Setter
    site : Option (Site N) → Setter
    mjd : MjdValue N A → Setter
    bandpass_m5_and_seeing : Option Object → Option Object → Option Object → Setter
    pho_sim_meta_data : Option (PhoSimMetaData N) → Setter

  unfoldable pub apply : Setter → Method N A
  apply (pointing_ra v) = set_pointing_ra N A v
  apply (pointing_dec v) = set_pointing_dec N A v
  apply (bound_length v) = set_bound_length N A v
  apply (bound_type v) = set_bound_type N A v
  apply (rot_sky_pos v) = set_rot_sky_pos N A v
  apply (m5 v) = set_m5 N A v
  apply (seeing v) = set_seeing N A v
  apply (site v) = set_site N A v
  apply (sky_brightness v) = set_sky_brightness N A v
  apply (mjd v) = set_mjd N A v
  apply (bandpass_m5_and_seeing b v w) = set_bandpass_m5_and_seeing N A b v w
  apply (pho_sim_meta_data d) = set_pho_sim_meta_data N A d

  unfoldable pub apply_all : List Setter → Method N A
  apply_all [] = pure tt
  apply_all (c ∷ cs) = apply c >> apply_all cs
