-- ===== src/Observation/Errors.antt =====
-- What a call that raises has done.
use sims_utils.Base.{
  ◌≡◌, ◌≢◌, Bool, true, false, ◌||◌, none, some, arith, String, str_eq, str_eq_iff, Bool-cases, inl,
  inr,
}
use sims_utils.Base.Result.{ok, err}
use sims_utils.Base.Dict.{lookup}
use sims_utils.Numpy.{Numpy}
use sims_utils.Astropy.{Astropy}
use sims_utils.Observation.State.{
  ObservationError, ObservationMetaData, PhoSimMetaData, overwrite_pointing_ra,
  overwrite_pointing_dec, overwrite_rot_sky_pos, overwrite_mjd, overwrite_bandpass,
  overwrite_seeing,
}
use sims_utils.Observation.Assign.{
  build_bounds, copy_pho_sim_meta_data, assign_pho_sim_meta_data, copy_mjd, copy_rot_sky_pos,
  copy_bandpass, check_seeing, copy_pointing,
}
use sims_utils.Observation.Methods.{
  set_pointing_ra, set_pointing_dec, set_bound_length, set_bound_type, set_rot_sky_pos, set_m5,
  set_seeing, set_site, set_sky_brightness, set_mjd, set_bandpass_m5_and_seeing,
  set_pho_sim_meta_data, clear_for, is_set_by,
}
use sims_utils.Observation.Steps.{
  Setter, pointing_ra, pointing_dec, bound_length, rot_sky_pos, bound_type, m5, seeing,
  sky_brightness, site, mjd, bandpass_m5_and_seeing, pho_sim_meta_data, apply,
}

module _ (N : Numpy) (A : Astropy N) where
  -- The keys of phoSimMetaData that forbid a setter.
  unfoldable pub forbids : String → Setter N A → Bool
  forbids key (pointing_ra v) = str_eq key "pointingRA"
  forbids key (pointing_dec v) = str_eq key "pointingDec"
  forbids key (rot_sky_pos v) = str_eq key "Opsim_rotskypos"
  forbids key (mjd v) = str_eq key "Opsim_expmjd"
  forbids key (seeing v) = str_eq key "Opsim_rawseeing"
  forbids key (bandpass_m5_and_seeing b v w) =
      str_eq key "Opsim_filter" || str_eq key "Opsim_rawseeing"
  forbids key _ = false

  -- A setter whose key stands in phoSimMetaData raises, and the object stays as it was.
  pub apply_forbidden :
      (key : String) (c : Setter N A) (o : ObservationMetaData N A)
      → is_set_by N A key o.pho_sim_meta_data ≡ true
      → forbids key c ≡ true
      → (e : ObservationError) × (apply N A c o ≡ (err e, o))
  unfolding apply forbids
  apply_forbidden key (pointing_ra v) o h f =
      unfold set_pointing_ra in (overwrite_pointing_ra, ground (arith, str_eq_iff key "pointingRA"))
  apply_forbidden key (pointing_dec v) o h f =
      unfold set_pointing_dec in
      (overwrite_pointing_dec, ground (arith, str_eq_iff key "pointingDec"))
  apply_forbidden key (rot_sky_pos v) o h f =
      unfold set_rot_sky_pos in
      (overwrite_rot_sky_pos, ground (arith, str_eq_iff key "Opsim_rotskypos"))
  apply_forbidden key (mjd v) o h f =
      unfold set_mjd in (overwrite_mjd, ground (arith, str_eq_iff key "Opsim_expmjd"))
  apply_forbidden key (seeing v) o h f =
      unfold set_seeing in (overwrite_seeing, ground (arith, str_eq_iff key "Opsim_rawseeing"))
  apply_forbidden key (bandpass_m5_and_seeing b v w) o h f =
      elim (Bool-cases (is_set_by N A "Opsim_filter" o.pho_sim_meta_data)) [
        | inl filtered ↦ unfold set_bandpass_m5_and_seeing in (overwrite_bandpass, ground arith)
        | inr other ↦
            unfold set_bandpass_m5_and_seeing in
            (
              overwrite_seeing,
              ground (arith, str_eq_iff key "Opsim_filter", str_eq_iff key "Opsim_rawseeing"),
            )
      ]
  apply_forbidden key _ o h f = cc

  build_bounds-raise :
      (o : ObservationMetaData N A) (e : ObservationError)
      → (build_bounds N A o).0 ≡ err e
      → (build_bounds N A o).1 ≡ o
  unfolding build_bounds
  build_bounds-raise o e h = ground arith

  copy_pho_sim_meta_data-bounds :
      (d : PhoSimMetaData N) (o : ObservationMetaData N A)
      → (copy_pho_sim_meta_data N A d o).1.bounds ≡ o.bounds
  unfolding copy_pho_sim_meta_data copy_mjd copy_rot_sky_pos copy_bandpass check_seeing
      copy_pointing
  copy_pho_sim_meta_data-bounds d o = ground arith

  assign_pho_sim_meta_data-raise :
      (d : PhoSimMetaData N) (o : ObservationMetaData N A) (e : ObservationError)
      → (assign_pho_sim_meta_data N A d o).0 ≡ err e
      → (assign_pho_sim_meta_data N A d o).1.bounds ≡ o.bounds
  unfolding assign_pho_sim_meta_data
  assign_pho_sim_meta_data-raise d o e h = ground (
    arith,
    copy_pho_sim_meta_data-bounds d o,
    build_bounds-raise (copy_pho_sim_meta_data N A d o).1 e,
  )

  -- A setter that raises leaves the bounds that stood, whatever else it has changed.
  pub apply_raise-bounds :
      (c : Setter N A) (o : ObservationMetaData N A) (e : ObservationError)
      → (apply N A c o).0 ≡ err e
      → (apply N A c o).1.bounds ≡ o.bounds
  unfolding apply
  apply_raise-bounds (pointing_ra v) o e h =
      let o' = record o { pointing_ra = some (N.radians v) } in
      unfold set_pointing_ra in ground (arith, build_bounds-raise o' e)
  apply_raise-bounds (pointing_dec v) o e h =
      let o' = record o { pointing_dec = some (N.radians v) } in
      unfold set_pointing_dec in ground (arith, build_bounds-raise o' e)
  apply_raise-bounds (bound_length v) o e h =
      let o' = record o { bound_length = some (N.radians v) } in
      unfold set_bound_length in ground (arith, build_bounds-raise o' e)
  apply_raise-bounds (bound_type v) o e h =
      let o' = record o { bound_type = v } in
      unfold set_bound_type in ground (arith, build_bounds-raise o' e)
  apply_raise-bounds (rot_sky_pos v) o e h = unfold set_rot_sky_pos in ground arith
  apply_raise-bounds (m5 v) o e h = unfold set_m5 in ground arith
  apply_raise-bounds (seeing v) o e h = unfold set_seeing in ground arith
  apply_raise-bounds (sky_brightness v) o e h = unfold set_sky_brightness in ground arith
  apply_raise-bounds (site v) o e h = unfold set_site in ground arith
  apply_raise-bounds (mjd v) o e h = unfold set_mjd in ground arith
  apply_raise-bounds (bandpass_m5_and_seeing b v w) o e h =
      unfold set_bandpass_m5_and_seeing in ground arith
  apply_raise-bounds (pho_sim_meta_data none) o e h = unfold set_pho_sim_meta_data in ground arith
  apply_raise-bounds (pho_sim_meta_data (some d)) o e h =
      unfold set_pho_sim_meta_data in
      ground (arith, assign_pho_sim_meta_data-raise d (clear_for N A d o) e)

  -- A phoSimMetaData with half a pointing is refused, but only after it has replaced the one
  -- that stood and the object has lost the coordinate that it brings.
  pub half_pointing :
      (d : PhoSimMetaData N) (o : ObservationMetaData N A) {x : N.Object}
      → lookup str_eq "pointingRA" d ≡ some x
      → lookup str_eq "pointingDec" d ≡ none
      → let (r, o') = set_pho_sim_meta_data N A (some d) o in
        (r ≢ ok tt) × (o'.pho_sim_meta_data ≡ some d) × (o'.pointing_ra ≡ none)
  unfolding set_pho_sim_meta_data assign_pho_sim_meta_data copy_pho_sim_meta_data copy_mjd
      copy_rot_sky_pos copy_bandpass check_seeing copy_pointing
  half_pointing d o e h = ground arith
