-- ===== src/Compound/Requests.antt =====
-- What the `makeObsParams…` return of one place and date, and what they do not.
use sims_utils.Base.{◌≡◌, refl, ap, ◌∙◌, String, true, false, some, none, str_eq}
use sims_utils.Base.Result.{ok}
use sims_utils.Base.Dict.{Dict, lookup}
use sims_utils.Numpy.{Numpy}
use sims_utils.Astropy.{Astropy}
use sims_utils.Palpy.{Palpy}
use sims_utils.Palpy.Places.{Places, IsElementwise}
use sims_utils.Mjd.Reads.{in_tai}
use sims_utils.Astrometry.Points.{Place}
use sims_utils.Compound.Angles.{Angles, single}
use sims_utils.Compound.Rotator.{full_turn}
use sims_utils.Compound.Vantage.{Vantage, horizon_point}
use sims_utils.Compound.Sky.{sky_above_point}
use sims_utils.Compound.Turned.{IsCircle}
use sims_utils.Compound.Defaults.{entries}
use sims_utils.Compound.Params.{
  Visit, make_obs_params_az_alt_tel, make_obs_params_ra_dec_tel, make_obs_params_ra_dec_sky,
}
use sims_utils.Compound.Answers.{az_alt_tel_lem, ra_dec_tel_lem, ra_dec_sky-eq}
use sims_utils.Compound.Shown.{
  LeavesKeys, IsMetadata, given_params, lookup-given_params, given_params-IsMetadata,
}
use sims_utils.Compound.Made.{obs_temp}
use sims_utils.Compound.Measured.{rot_sky}

module _ (N : Numpy) (A : Astropy N) (P : Places N) (Q : Palpy N) {D : Type 0}
    (dtype : Angles N.Object → D) (law : IsElementwise N P) (v : Visit N A P Q dtype)
    (float : N.is_float v.mjd ≡ true)
    (at : Vantage N A P Q (in_tai v.mjd) (obs_temp N A v.mjd v.longitude v.latitude)) where
  open N use {Object, radians, degrees}

  -- For a date that is a float, an observatory of which palpy computes the parameters and times
  -- at that date, taken as TAI, and `kwargs` with none of the twelve keys: makeObsParamsAzAltTel of
  -- numbers returns a dict that has under pointingRA and pointingDec the mean place of the altitude
  -- and azimuth, under Unrefracted_Altitude, Unrefracted_Azimuth and Opsim_rottelpos the altitude,
  -- the azimuth and the rotation as they were given, under Opsim_rotskypos that rotation less the
  -- parallactic angle of the place, and under the other keys the band and the mean place of the
  -- nadir with its distance, all with their dtype.
  pub az_alt_tel-eq :
      (az alt rot : Object)
      → LeavesKeys v.kwargs
      → (d : Dict String (Angles Object × D)) × (make_obs_params_az_alt_tel N A P Q dtype
            (single az)
            (single alt)
            v
            (single rot)
          ≡ ok d)
        × IsMetadata N A P Q dtype v at d
            (sky_above_point N A P Q
              (in_tai v.mjd)
              (obs_temp N A v.mjd v.longitude v.latitude)
              at
              false
              (alt, az))
            (single alt)
            (single az)
            rot
  az_alt_tel-eq az alt rot missing =
      let o = obs_temp N A v.mjd v.longitude v.latitude in
      let p = sky_above_point N A P Q (in_tai v.mjd) o at false (alt, az) in
      (
        given_params N A P Q dtype v at p (single alt) (single az) rot,
        az_alt_tel_lem N A P Q dtype law v float at az alt rot,
        given_params-IsMetadata N A P Q dtype v at p (single alt) (single az) rot missing,
      )

  -- For a date that is a float, an observatory of which palpy computes the parameters and times
  -- at that date, taken as TAI, and `kwargs` with none of the twelve keys: makeObsParamsRaDecTel of
  -- numbers returns a dict that has the place and the rotation as they were given, as radians, the
  -- rotation less the parallactic angle of that place as the one on the sky, but under
  -- Unrefracted_Altitude and Unrefracted_Azimuth the altitude and the azimuth, in degrees, of
  -- another place: that which has the same two numbers as degrees. The other keys have the band and
  -- the mean place of the nadir with its distance, and all have their dtype.
  pub ra_dec_tel-eq :
      (p : Place N A P) (rot : Object)
      → LeavesKeys v.kwargs
      → let q =
          horizon_point N A P Q
            (in_tai v.mjd)
            (obs_temp N A v.mjd v.longitude v.latitude)
            at
            (radians p.0, radians p.1) in
        (d : Dict String (Angles Object × D)) × (make_obs_params_ra_dec_tel N A P Q dtype
            (single p.0)
            (single p.1)
            v
            (single rot)
          ≡ ok d)
        × IsMetadata N A P Q dtype v at d p (single (degrees q.0)) (single (degrees q.1)) rot
  ra_dec_tel-eq p rot missing =
      let o = obs_temp N A v.mjd v.longitude v.latitude in
      let q = horizon_point N A P Q (in_tai v.mjd) o at (radians p.0, radians p.1) in
      let alt = single (degrees q.0) in
      let az = single (degrees q.1) in
      (
        given_params N A P Q dtype v at p alt az rot,
        ra_dec_tel_lem N A P Q dtype law v float at p rot,
        given_params-IsMetadata N A P Q dtype v at p alt az rot missing,
      )

  -- For a date that is a float, and an observatory of which palpy computes the parameters and
  -- times at that date, taken as TAI, and in arithmetic where a turn may be taken before or
  -- after a sum and sums and differences undo each other: makeObsParamsRaDecSky of numbers
  -- returns a dict that has the place it was given and, as the rotation on the sky, the rotation
  -- it was given up to full turns, each with its dtype, where `kwargs` do not give these keys.
  pub ra_dec_sky_keeps_sky :
      (circle : IsCircle N) (p : Place N A P) (rot : Object)
      → lookup str_eq "pointingRA" v.kwargs ≡ none
      → lookup str_eq "pointingDec" v.kwargs ≡ none
      → lookup str_eq "Opsim_rotskypos" v.kwargs ≡ none
      → (d : Dict String (Angles Object × D)) × (make_obs_params_ra_dec_sky N A P Q dtype
            (single p.0)
            (single p.1)
            v
            (single rot)
          ≡ ok d)
        × (lookup str_eq "pointingRA" d ≡ some (single p.0, dtype (single p.0)))
        × (lookup str_eq "pointingDec" d ≡ some (single p.1, dtype (single p.1)))
        × (lookup str_eq "Opsim_rotskypos" d
            ≡ some (single (full_turn N rot), dtype (single (full_turn N rot))))
  unfolding entries rot_sky
  ra_dec_sky_keeps_sky circle p rot no_ra no_dec no_rot =
      let o = obs_temp N A v.mjd v.longitude v.latitude in
      let q = horizon_point N A P Q (in_tai v.mjd) o at (radians p.0, radians p.1) in
      let pa = (horizon_point N A P Q (in_tai v.mjd) o at p).2 in
      let tel = full_turn N (N.add rot pa) in
      let has =
        lookup-given_params N A P Q dtype v at p (single (degrees q.0)) (single (degrees q.1))
          tel in
      let back : full_turn N (N.sub tel pa) ≡ full_turn N rot =
        circle.turn_sub (N.add rot pa) pa ∙ ap (full_turn N) (circle.add_sub rot pa) in
      (
        given_params N A P Q dtype v at p (single (degrees q.0)) (single (degrees q.1)) tel,
        ra_dec_sky-eq N A P Q dtype law v float at p rot,
        has "pointingRA" _ no_ra refl,
        has "pointingDec" _ no_dec refl,
        has "Opsim_rotskypos" _ no_rot (ap (λ x. some (single x)) back),
      )
