-- ===== src/Compound/Made.antt =====
-- What `obsTemp` is, and what `calcObsDefaults` makes of one place.
use sims_utils.Base.{◌≡◌, refl, ap, true, some, none}
use sims_utils.Base.Action.{>>=-ok, ◌>>◌, evaluate, modify}
use sims_utils.Base.Result.{ok, err}
use sims_utils.Numpy.{Numpy}
use sims_utils.Astropy.{Astropy}
use sims_utils.Mjd.{ModifiedJulianDate, from_tai}
use sims_utils.Site.{Site, assign, with_defaults, where_given}
use sims_utils.Site.Defaults.{site-eq-ok}
use sims_utils.Observation.State.{ObservationMetaData, plain}
use sims_utils.Observation.Methods.{
  observation_meta_data, initialise, initial, initial_arguments, initial_mjd, initial_pho_sim,
  initial_m5_and_seeing, set_m5, assign_seeing, build_missing_bounds, mjd_of,
}
use sims_utils.Observation.Assign.{build_bounds, requested, assign_dict_keyed_to_bandpass, Method}
use sims_utils.Compound.Temporary.{temporary_observation, temporary_site, temporary_arguments}

module _ (N : Numpy) (A : Astropy N) where
  open N use {Object, literal, is_float}

  -- A new observation at a site, and `obsTemp`
  abbrev obs_at : Object → Site N → ObservationMetaData N A
  obs_at mjd s = record {
    bounds = none;
    bound_type = none;
    bandpass = none;
    sky_brightness = none;
    site = some s;
    epoch = literal "2000.0";
    mjd = some (from_tai N A mjd);
    rot_sky_pos = none;
    pointing_ra = none;
    pointing_dec = none;
    bound_length = none;
    pho_sim_meta_data = none;
    m5 = none;
    seeing = none;
  }

  unfoldable pub obs_temp : Object → Object → Object → ObservationMetaData N A
  obs_temp mjd long lat = obs_at mjd (assign N (with_defaults N (temporary_site N A long lat)))

  mjd_of-eq : (x : Object) → is_float x ≡ true → mjd_of N A true (plain x) ≡ ok (from_tai N A x)
  unfolding mjd_of
  mjd_of-eq x float = rw float refl

  initialise-eq :
      (mjd : Object) (s : Site N)
      → is_float mjd ≡ true
      → initialise N A (temporary_arguments N A mjd s) (initial N A (temporary_arguments N A mjd s))
        ≡ (ok tt, obs_at mjd s)
  unfolding temporary_arguments initialise initial where_given initial_arguments initial_mjd
      initial_pho_sim initial_m5_and_seeing set_m5 assign_seeing build_missing_bounds build_bounds
      requested assign_dict_keyed_to_bandpass
  initialise-eq mjd s float =
      let a = temporary_arguments N A mjd s in
      let dated : Method N A = initial_mjd N A (some (plain mjd)) in
      let keep : ModifiedJulianDate N A → Method N A =
        λ m. modify (λ o. record o { mjd = some m }) in
      >>=-ok (initial_arguments N A a)
        (λ _. initial_m5_and_seeing N A none none >> build_missing_bounds N A) (initial N A a)
        (>>=-ok dated (λ _. initial_pho_sim N A none) (initial N A a)
          (>>=-ok (evaluate (λ _. mjd_of N A true (plain mjd))) keep (initial N A a)
            (ap (λ r. (r, initial N A a)) (mjd_of-eq mjd float))))

  observation-eq :
      (mjd : Object) (s : Site N)
      → is_float mjd ≡ true
      → observation_meta_data N A (temporary_arguments N A mjd s) ≡ ok (obs_at mjd s)
  unfolding observation_meta_data
  observation-eq mjd s float =
      ap (λ p. elim p.0 [ ok _ ↦ ok p.1 | err e ↦ err e ]) (initialise-eq mjd s float)

  pub temporary_observation-eq :
      (mjd long lat : Object)
      → is_float mjd ≡ true
      → temporary_observation N A mjd long lat ≡ ok (obs_temp mjd long lat)
  unfolding temporary_observation obs_temp
  temporary_observation-eq mjd long lat float = simp (
    site-eq-ok N (temporary_site N A long lat),
    observation-eq mjd (assign N (with_defaults N (temporary_site N A long lat))) float,
  )
