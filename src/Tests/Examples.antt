-- ===== src/Tests/Examples.antt =====
-- Each theorem at an input that meets its hypotheses.
use sims_utils.Base.{◌≡◌, ◌≢◌, ◌≤◌, ◌<◌, refl, true, [], ◌∷◌, some, none, arith, map}
use sims_utils.Base.Int.{pos}
use sims_utils.Base.Result.{ok, err}
use sims_utils.Bounds.Box.{box_bounds}
use sims_utils.Bounds.Exact.{sides, about, separation, selects_ra, box_selects}
use sims_utils.Mjd.{tai, utc, ut1, dut1, ModifiedJulianDate, modified_julian_date, reads}
use sims_utils.Mjd.Reads.{in_tai, given_by, scale_of, reads-eq-map}
use sims_utils.Site.{Site, site, assign, with_defaults}
use sims_utils.Site.Defaults.{unspecified, site-eq-ok, lsst_site, given_or}
use sims_utils.Base.Dict.{lookup}
use sims_utils.Observation.State.{ObservationError, ByBandpass}
use sims_utils.Observation.Assign.{assign_dict_keyed_to_bandpass}
use sims_utils.Observation.Keyed.{lookup-assign_dict_keyed_to_bandpass}
use sims_utils.Observation.Methods.{is_set_by, set_pho_sim_meta_data}
use sims_utils.Observation.Steps.{apply, apply_all, pointing_ra}
use sims_utils.Observation.Invariant.Bounds.{IsInSync, run-IsInSync}
use sims_utils.Observation.Invariant.PhoSim.{HasPhoSim, run-HasPhoSim}
use sims_utils.Observation.Invariant.Keyed.{HasKeys, run-HasKeys}
use sims_utils.Observation.Errors.{forbids, apply_forbidden, half_pointing}
use sims_utils.Observation.Conflicts.{IsCompatible, observation_meta_data-IsCompatible}
use sims_utils.Tests.Data.{
  N, A, deg, pointing, from_opsim, opsim, changes, named_lsst, same_key-IsKeyTest,
}
use sims_utils.Tests.Runs.{
  opened, opened_from_opsim, pointing-opens, from_opsim-opens, changes-succeed,
}

run-IsInSync_example : IsInSync N A (apply_all N A changes opened).1
run-IsInSync_example = run-IsInSync N A pointing changes pointing-opens changes-succeed

run-HasPhoSim_example : HasPhoSim N A opened_from_opsim
unfolding apply_all
run-HasPhoSim_example = run-HasPhoSim N A from_opsim [] from_opsim-opens refl

run-HasKeys_example : HasKeys N A (apply_all N A changes opened).1
run-HasKeys_example =
    run-HasKeys N A same_key-IsKeyTest pointing changes pointing-opens changes-succeed

apply_forbidden_example :
    (e : ObservationError) × (apply N A (pointing_ra (deg 3)) opened_from_opsim
      ≡ (err e, opened_from_opsim))
unfolding is_set_by opened_from_opsim forbids
apply_forbidden_example =
    apply_forbidden N A "pointingRA" (pointing_ra (deg 3)) opened_from_opsim refl refl

observation_meta_data-IsCompatible_example : IsCompatible N A from_opsim opsim
observation_meta_data-IsCompatible_example =
    observation_meta_data-IsCompatible N A from_opsim opsim refl from_opsim-opens

half_pointing_example :
    let (r, o) = set_pho_sim_meta_data N A (some (("pointingRA", deg 1) ∷ [])) opened in
    (r ≢ ok tt) × (o.pho_sim_meta_data ≡ some (("pointingRA", deg 1) ∷ [])) × (o.pointing_ra ≡ none)
half_pointing_example = half_pointing N A (("pointingRA", deg 1) ∷ []) opened refl refl

reads-eq-map_example :
    (m : ModifiedJulianDate N A) × (modified_julian_date N A (some (deg 50)) (some (deg 7)) ≡ ok m)
    × ((reads N A (ut1 ∷ utc ∷ ut1 ∷ dut1 ∷ tai ∷ []) m).0
        ≡ map (scale_of N A (in_tai (deg 50))) (ut1 ∷ utc ∷ ut1 ∷ dut1 ∷ tai ∷ []))
unfolding given_by
reads-eq-map_example =
    reads-eq-map N A (some (deg 50)) (some (deg 7)) (ut1 ∷ utc ∷ ut1 ∷ dut1 ∷ tai ∷ []) refl

site-eq-ok_example :
    site N named_lsst
    ≡ ok (assign N (with_defaults N named_lsst), unspecified N (with_defaults N named_lsst))
site-eq-ok_example = site-eq-ok N named_lsst

lsst_site_example :
    (s : Site N) × (site N named_lsst ≡ ok (s, []))
    × (s.longitude ≡ some (N.literal "-70.7494"))
    × (s.latitude ≡ some (deg 30))
    × (s.height ≡ some (N.literal "2650.0"))
    × (s.temperature ≡ some (N.literal "11.5"))
    × (s.pressure ≡ some (N.literal "750.0"))
    × (s.humidity ≡ some (N.literal "0.4"))
    × (s.lapse_rate ≡ some (N.literal "0.0065"))
    × (s.longitude_rad ≡ some (N.radians (N.literal "-70.7494")))
    × (s.latitude_rad ≡ some (N.radians (deg 30)))
    × (s.temperature_kelvin ≡ some (N.add (N.literal "11.5") (N.literal "273.15")))
unfolding given_or
lsst_site_example =
    lsst_site N named_lsst (record { text = "LSST"; interned = true }) refl refl refl

box_selects_example :
    (separation 360 355 8 < 20 → selects_ra 360 (about 360 355 (pos 0) 20 5) 8 ≡ true)
    × (selects_ra 360 (about 360 355 (pos 0) 20 5) 8 ≡ true → separation 360 355 8 ≤ 20)
unfolding box_bounds about
box_selects_example =
    box_selects 360 355 (pos 0) 20 5 8 (omega arith) (omega arith) (omega arith) refl

lookup-assign_dict_keyed_to_bandpass_example :
    (d : ByBandpass N) × (assign_dict_keyed_to_bandpass N
        (some (sides (pos 1) (pos 2)))
        (some (sides (pos 24) (pos 25)))
      ≡ ok (some d))
    × (lookup N.same_key (deg 2) d ≡ some (deg 25))
lookup-assign_dict_keyed_to_bandpass_example =
    lookup-assign_dict_keyed_to_bandpass N same_key-IsKeyTest (sides (pos 1) (pos 2))
      (sides (pos 24) (pos 25)) (deg 1 ∷ deg 2 ∷ []) (deg 24 ∷ deg 25 ∷ []) 1 refl refl refl
      (refl, (refl, tt)) refl refl
