-- ===== src/Observation/Assign.antt =====
-- The private methods of ObservationMetaData: `_assignDictKeyedToBandpass`, `_buildBounds` and
-- `_assignPhoSimMetaData`.
use sims_utils.Base.{
  String, Bool, ◌&&◌, Option, none, some, List, [], ◌∷◌, str_eq, ◌==◌, is_some, length,
  if◌then◌else◌,
}
use sims_utils.Base.Result.{Result, ok, err}
use sims_utils.Base.Action.{Action, ◌>>◌, modify}
use sims_utils.Base.Dict.{Dict, lookup, insert}
use sims_utils.Numpy.{Numpy}
use sims_utils.Astropy.{Astropy}
use sims_utils.Bounds.{Bounds, get_spatial_bounds}
use sims_utils.Bounds.Errors.{BoundsError}
use sims_utils.Mjd.{from_tai}
use sims_utils.Observation.State.{
  ObservationError, overwrite_mjd, overwrite_rot_sky_pos, overwrite_bandpass, overwrite_seeing,
  overwrite_pointing_ra, overwrite_pointing_dec, dec_without_ra, ra_without_dec, no_bandpass,
  bandpass_list_only, value_list_only, lengths_differ, no_bounds, PhoSimMetaData, ByBandpass,
  ObservationMetaData,
}

-- `key in metaData`
abbrev pub has_key {ℓ} : {V : Type ℓ} → String → Dict String V → Bool
has_key key d = is_some (lookup str_eq key d)

module _ (N : Numpy) where
  open N use {Object, same_key, iter?}

  -- `for b, m in zip(bandpass, inputValue): outputDict[b] = m`
  unfoldable pub fill : List Object → List Object → ByBandpass N → ByBandpass N
  fill (b ∷ bs) (m ∷ ms) d = fill bs ms (insert same_key b m d)
  fill _ _ d = d

  -- The part after the test on `None`, with what `hasattr(…, '__iter__')` gave for both.
  unfoldable pub dict_of :
      Object
      → Object
      → Option (List Object)
      → Option (List Object)
      → Result ObservationError (ByBandpass N)
  unfolding fill
  dict_of b v (some bs) none = err bandpass_list_only
  dict_of b v none (some vs) = err value_list_only
  dict_of b v (some bs) (some vs) =
      if length vs == length bs then ok (fill bs vs []) else err lengths_differ
  dict_of b v none none = ok ((b, v) ∷ [])

  unfoldable pub assign_dict_keyed_to_bandpass :
      Option Object → Option Object → Result ObservationError (Option (ByBandpass N))
  unfolding dict_of
  assign_dict_keyed_to_bandpass bandpass none = ok none
  assign_dict_keyed_to_bandpass none (some v) = err no_bandpass
  assign_dict_keyed_to_bandpass (some b) (some v) = elim (dict_of b v (iter? b) (iter? v)) [
    | ok d ↦ ok (some d)
    | err e ↦ err e
  ]

module _ (N : Numpy) (A : Astropy N) where
  open N use {Object}

  abbrev pub Method : Type 0
  Method = Action (ObservationMetaData N A) ObservationError (Unit {0})

  -- The call in `_buildBounds`, if none of the early returns is taken.
  unfoldable pub requested :
      Option String
      → Option Object
      → Option Object
      → Option Object
      → Option (Result BoundsError (Bounds N))
  requested (some kind) (some size) (some ra) (some dec) =
      some (get_spatial_bounds N kind ra dec size)
  requested _ _ _ _ = none

  unfoldable pub build_bounds : Method
  unfolding requested
  build_bounds o = elim (requested o.bound_type o.bound_length o.pointing_ra o.pointing_dec) [
    | none ↦ (ok tt, o)
    | some (ok b) ↦ (ok tt, record o { bounds = some b })
    | some (err e) ↦ (err (no_bounds e), o)
  ]

  -- The blocks of `_assignPhoSimMetaData`, in order.
  unfoldable pub copy_mjd : PhoSimMetaData N → Method
  copy_mjd d o = elim (lookup str_eq "Opsim_expmjd" d) [
    | none ↦ (ok tt, o)
    | some x ↦
        if is_some o.mjd
        then (err overwrite_mjd, o)
        else (ok tt, record o { mjd = some (from_tai N A x) })
  ]

  unfoldable pub copy_rot_sky_pos : PhoSimMetaData N → Method
  copy_rot_sky_pos d o = elim (lookup str_eq "Opsim_rotskypos" d) [
    | none ↦ (ok tt, o)
    | some x ↦
        if is_some o.rot_sky_pos
        then (err overwrite_rot_sky_pos, o)
        else (ok tt, record o { rot_sky_pos = some x })
  ]

  unfoldable pub copy_bandpass : PhoSimMetaData N → Method
  copy_bandpass d o = elim (lookup str_eq "Opsim_filter" d) [
    | none ↦ (ok tt, o)
    | some x ↦
        if is_some o.bandpass
        then (err overwrite_bandpass, o)
        else (ok tt, record o { bandpass = some x })
  ]

  unfoldable pub check_seeing : PhoSimMetaData N → Method
  check_seeing d o =
      if has_key "Opsim_rawseeing" d && is_some o.seeing
      then (err overwrite_seeing, o)
      else (ok tt, o)

  -- The two tests on half a pointing, and the copy of a whole one.
  unfoldable pub copy_pointing_from : Option Object → Option Object → Method
  copy_pointing_from none none o = (ok tt, o)
  copy_pointing_from none (some dec) o = (err dec_without_ra, o)
  copy_pointing_from (some ra) none o = (err ra_without_dec, o)
  copy_pointing_from (some ra) (some dec) o =
      if is_some o.pointing_ra
      then (err overwrite_pointing_ra, o)
      else if is_some o.pointing_dec
      then (err overwrite_pointing_dec, o)
      else (ok tt, record o { pointing_ra = some ra; pointing_dec = some dec })

  unfoldable pub copy_pointing : PhoSimMetaData N → Method
  unfolding copy_pointing_from
  copy_pointing d =
      copy_pointing_from (lookup str_eq "pointingRA" d) (lookup str_eq "pointingDec" d)

  -- `_assignPhoSimMetaData` of a dict, up to its call of `_buildBounds`.
  unfoldable pub copy_pho_sim_meta_data : PhoSimMetaData N → Method
  copy_pho_sim_meta_data d = do
    modify (λ o. record o { pho_sim_meta_data = some d })
    copy_mjd d
    copy_rot_sky_pos d
    copy_bandpass d
    check_seeing d
    copy_pointing d

  -- `_assignPhoSimMetaData`; its callers pass no `None`.
  unfoldable pub assign_pho_sim_meta_data : PhoSimMetaData N → Method
  assign_pho_sim_meta_data d = do copy_pho_sim_meta_data d; build_bounds
