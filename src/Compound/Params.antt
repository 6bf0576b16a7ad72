-- ===== src/Compound/Params.antt =====
-- `makeObservationMetadata` and the four `makeObsParams…`.
use sims_utils.Base.{String, [], ◌∷◌, map, str_eq}
use sims_utils.Base.Result.{Result, ok, err, ◌>>=◌}
use sims_utils.Base.Dict.{Dict, insert}
use sims_utils.Numpy.{Numpy}
use sims_utils.Astropy.{Astropy}
use sims_utils.Palpy.{Palpy}
use sims_utils.Palpy.Places.{Places}
use sims_utils.Compound.Angles.{Angles}
use sims_utils.Compound.Horizon.{alt_az_pa_from_ra_dec, ra_dec_from_alt_az_radians}
use sims_utils.Compound.Rotator.{get_rot_tel_pos_radians}
use sims_utils.Compound.Temporary.{ParamsError, wrong_arguments, asked, on_temporary}
use sims_utils.Compound.Defaults.{Metadata, calc_obs_defaults}

-- `d.update(kwargs)`
abbrev pub update {ℓ} : {V : Type ℓ} → Dict String V → Dict String V → Dict String V
update [] d = d
update ((k, v) ∷ kwargs) d = update kwargs (insert str_eq k v d)

-- `makeObservationMetadata`, with `np.asarray(x).dtype`
unfoldable pub make_observation_metadata :
    {V D : Type 0} → (V → D) → Dict String V → Dict String (V × D)
make_observation_metadata dtype d = map (λ e. (e.0, (e.1, dtype e.1))) d

module _ (N : Numpy) (A : Astropy N) (P : Places N) (Q : Palpy N) {D : Type 0}
    (dtype : Angles N.Object → D) where
  open N use {Object}

  -- The arguments that all four take: the date, the band, the place of the observatory and `kwargs`
  pub record Visit : Type 0 where
    pub mjd : Object
    pub band : Object
    pub longitude : Object
    pub latitude : Object
    pub kwargs : Metadata N A P Q

  abbrev pub Params : Type 0
  Params = Result ParamsError (Dict String (Angles Object × D))

  -- `calcObsDefaults(...)`, `obsMd.update(kwargs)` and `makeObservationMetadata(obsMd)`
  unfoldable pub params_of :
      Visit → Angles Object → Angles Object → Angles Object → Angles Object → Angles Object → Params
  unfolding calc_obs_defaults make_observation_metadata
  params_of v ra dec alt az rot_tel = do
    d ←
        calc_obs_defaults N A P Q
          (record { ra = ra; dec = dec; alt = alt; az = az; rot_tel = rot_tel; band = v.band })
          v.mjd v.longitude v.latitude
    ok (make_observation_metadata dtype (update v.kwargs d))

  unfoldable pub make_obs_params_az_alt_tel :
      Angles Object → Angles Object → Visit → Angles Object → Params
  unfolding on_temporary params_of
  make_obs_params_az_alt_tel az alt v rot_tel = do
    sky ←
        on_temporary N A v.mjd v.longitude v.latitude
          (asked N A (ra_dec_from_alt_az_radians N A P Q alt az))
    params_of v sky.0 sky.1 alt az rot_tel

  -- The call of `_getRotTelPos` passes six arguments to a function of four.
  unfoldable pub make_obs_params_az_alt_sky :
      Angles Object → Angles Object → Visit → Angles Object → Params
  unfolding on_temporary make_obs_params_az_alt_tel
  make_obs_params_az_alt_sky az alt v rot_sky = do
    sky ←
        on_temporary N A v.mjd v.longitude v.latitude
          (asked N A (ra_dec_from_alt_az_radians N A P Q alt az))
    rot_tel ← err wrong_arguments
    make_obs_params_az_alt_tel az alt v rot_tel

  -- The call is that of the function of degrees.
  unfoldable pub make_obs_params_ra_dec_tel :
      Angles Object → Angles Object → Visit → Angles Object → Params
  unfolding on_temporary params_of
  make_obs_params_ra_dec_tel ra dec v rot_tel = do
    h ←
        on_temporary N A v.mjd v.longitude v.latitude
          (asked N A (alt_az_pa_from_ra_dec N A P Q ra dec))
    params_of v ra dec h.0 h.1 rot_tel

  unfoldable pub make_obs_params_ra_dec_sky :
      Angles Object → Angles Object → Visit → Angles Object → Params
  unfolding on_temporary make_obs_params_ra_dec_tel
  make_obs_params_ra_dec_sky ra dec v rot_sky = do
    rot_tel ←
        on_temporary N A v.mjd v.longitude v.latitude
          (asked N A (get_rot_tel_pos_radians N A P Q ra dec rot_sky))
    make_obs_params_ra_dec_tel ra dec v rot_tel
