-- ===== src/Compound/Answers.antt =====
-- What the `makeObsParams…` of numbers compute, in terms of one place.
use sims_utils.Base.{◌≡◌, ap, ◌∙◌, true, false, some}
use sims_utils.Base.Result.{Result, ok, ◌>>=◌}
use sims_utils.Numpy.{Numpy}
use sims_utils.Astropy.{Astropy}
use sims_utils.Palpy.{Palpy}
use sims_utils.Palpy.Places.{Places, IsElementwise}
use sims_utils.Mjd.{from_tai}
use sims_utils.Mjd.Reads.{in_tai}
use sims_utils.Astrometry.Points.{Place}
use sims_utils.Compound.Angles.{Angles, single, each}
use sims_utils.Base.Action.{>>=-ok, pure}
use sims_utils.Astrometry.Observed.{Maybe}
use sims_utils.Compound.Horizon.{
  alt_az_pa_from_ra_dec, alt_az_pa_from_ra_dec_radians, ra_dec_from_alt_az_radians, Pair, Triple,
}
use sims_utils.Compound.Seen.{alt_az_pa-eq}
use sims_utils.Compound.Rotator.{full_turn, get_rot_tel_pos_radians}
use sims_utils.Compound.Vantage.{Vantage, horizon_point}
use sims_utils.Compound.Sky.{sky_above_point, ra_dec_from_alt_az-eq}
use sims_utils.Compound.Turned.{get_rot_tel_pos-eq}
use sims_utils.Compound.Temporary.{ParamsError, asked}
use sims_utils.Compound.Defaults.{Metadata, measured, calc_obs_defaults}
use sims_utils.Compound.Params.{
  update, make_observation_metadata, Visit, Params, params_of, make_obs_params_az_alt_tel,
  make_obs_params_ra_dec_tel, make_obs_params_ra_dec_sky,
}
use sims_utils.Compound.Shown.{given_params}
use sims_utils.Compound.Made.{obs_temp}
use sims_utils.Compound.Measured.{from_tai-IsCoherent, asked-ok, on_temporary-eq, aim, measured-eq}

module _ (N : Numpy) (A : Astropy N) (P : Places N) (Q : Palpy N) {D : Type 0}
    (dtype : Angles N.Object → D) (law : IsElementwise N P) (v : Visit N A P Q dtype)
    (float : N.is_float v.mjd ≡ true)
    (at : Vantage N A P Q (in_tai v.mjd) (obs_temp N A v.mjd v.longitude v.latitude)) where
  open N use {Object, radians, degrees}

  pub params_of-eq :
      (p : Place N A P) (alt az : Angles Object) (rot : Object)
      → params_of N A P Q dtype v (single p.0) (single p.1) alt az (single rot)
        ≡ ok (given_params N A P Q dtype v at p alt az rot)
  unfolding params_of calc_obs_defaults given_params obs_temp
  params_of-eq p alt az rot =
      ap
        (λ (r : Result ParamsError (Metadata N A P Q)).
          r >>= λ d. ok (make_observation_metadata dtype (update v.kwargs d)))
        (on_temporary-eq N A v.mjd v.longitude v.latitude
            (measured N A P Q (
              aim N A P Q (in_tai v.mjd) (obs_temp N A v.mjd v.longitude v.latitude) at p alt az rot
                v.band))
            float
          ∙ measured-eq N A P Q (in_tai v.mjd) (obs_temp N A v.mjd v.longitude v.latitude) at law
              (from_tai N A v.mjd) p alt az rot v.band (from_tai-IsCoherent N A v.mjd))

  pub az_alt_tel_lem :
      (az alt rot : Object)
      → make_obs_params_az_alt_tel N A P Q dtype (single az) (single alt) v (single rot)
        ≡ ok (
            given_params N A P Q dtype v at
              (sky_above_point N A P Q
                (in_tai v.mjd)
                (obs_temp N A v.mjd v.longitude v.latitude)
                at
                false
                (alt, az))
              (single alt)
              (single az)
              rot)
  unfolding make_obs_params_az_alt_tel obs_temp each
  az_alt_tel_lem az alt rot =
      let o = obs_temp N A v.mjd v.longitude v.latitude in
      let (m', e, h') =
        ra_dec_from_alt_az-eq N A P Q law (in_tai v.mjd) o at (from_tai N A v.mjd)
          (single (alt, az)) (from_tai-IsCoherent N A v.mjd) in
      let ask = ra_dec_from_alt_az_radians N A P Q (single alt) (single az) in
      let next : Result ParamsError (Pair N A P Q) → Params N A P Q dtype = λ r.
        r >>= λ sky. params_of N A P Q dtype v sky.0 sky.1 (single alt) (single az) (single rot) in
      ap next (
        on_temporary-eq N A v.mjd v.longitude v.latitude (asked N A ask) float
        ∙ ap (λ p. p.0) (asked-ok N A ask (some o) e))
      ∙ params_of-eq (sky_above_point N A P Q (in_tai v.mjd) o at false (alt, az)) (single alt)
          (single az) rot

  pub ra_dec_tel_lem :
      (p : Place N A P) (rot : Object)
      → let q =
          horizon_point N A P Q
            (in_tai v.mjd)
            (obs_temp N A v.mjd v.longitude v.latitude)
            at
            (radians p.0, radians p.1) in
        make_obs_params_ra_dec_tel N A P Q dtype (single p.0) (single p.1) v (single rot)
        ≡ ok (given_params N A P Q dtype v at p (single (degrees q.0)) (single (degrees q.1)) rot)
  unfolding make_obs_params_ra_dec_tel alt_az_pa_from_ra_dec obs_temp each
  ra_dec_tel_lem p rot =
      let o = obs_temp N A v.mjd v.longitude v.latitude in
      let r : Place N A P = (radians p.0, radians p.1) in
      let q = horizon_point N A P Q (in_tai v.mjd) o at r in
      let (m', e, h') =
        alt_az_pa-eq N A P Q law (in_tai v.mjd) o at (from_tai N A v.mjd) (single r)
          (from_tai-IsCoherent N A v.mjd) in
      let ask = alt_az_pa_from_ra_dec N A P Q (single p.0) (single p.1) in
      let in_degrees : Triple N A P Q → Maybe N A P (Triple N A P Q) =
        λ h. pure (each degrees h.0, each degrees h.1, each degrees h.2) in
      let next : Result ParamsError (Triple N A P Q) → Params N A P Q dtype =
        λ r. r >>= λ h. params_of N A P Q dtype v (single p.0) (single p.1) h.0 h.1 (single rot) in
      ap next (
        on_temporary-eq N A v.mjd v.longitude v.latitude (asked N A ask) float
        ∙ ap (λ p. p.0)
            (asked-ok N A ask (some o) (
              >>=-ok (alt_az_pa_from_ra_dec_radians N A P Q (single r.0) (single r.1)) in_degrees
                (some o) e)))
      ∙ params_of-eq p (single (degrees q.0)) (single (degrees q.1)) rot

  pub ra_dec_sky-eq :
      (p : Place N A P) (rot : Object)
      → let o = obs_temp N A v.mjd v.longitude v.latitude in
        let q = horizon_point N A P Q (in_tai v.mjd) o at (radians p.0, radians p.1) in
        let pa = (horizon_point N A P Q (in_tai v.mjd) o at p).2 in
        make_obs_params_ra_dec_sky N A P Q dtype (single p.0) (single p.1) v (single rot)
        ≡ ok (
            given_params N A P Q dtype v at p
              (single (degrees q.0))
              (single (degrees q.1))
              (full_turn N (N.add rot pa)))
  unfolding make_obs_params_ra_dec_sky obs_temp each
  ra_dec_sky-eq p rot =
      let o = obs_temp N A v.mjd v.longitude v.latitude in
      let (m', e, h') =
        get_rot_tel_pos-eq N A P Q law (in_tai v.mjd) o at (from_tai N A v.mjd) (single (p, rot))
          (from_tai-IsCoherent N A v.mjd) in
      let ask = get_rot_tel_pos_radians N A P Q (single p.0) (single p.1) (single rot) in
      let next : Result ParamsError (Angles Object) → Params N A P Q dtype =
        λ r. r >>= make_obs_params_ra_dec_tel N A P Q dtype (single p.0) (single p.1) v in
      ap next (
        on_temporary-eq N A v.mjd v.longitude v.latitude (asked N A ask) float
        ∙ ap (λ p. p.0) (asked-ok N A ask (some o) e))
      ∙ ra_dec_tel_lem p (full_turn N (N.add rot (horizon_point N A P Q (in_tai v.mjd) o at p).2))
