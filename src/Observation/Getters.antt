-- ===== src/Observation/Getters.antt =====
-- The properties of ObservationMetaData as they are read, and what they show after a setter.
use sims_utils.Base.{◌≡◌, refl, String, Option, none, some, arith, true, not}
use sims_utils.Base.Result.{Result, ok, err}
use sims_utils.Numpy.{Numpy}
use sims_utils.Astropy.{Astropy}
use sims_utils.Mjd.{ModifiedJulianDate}
use sims_utils.Site.{Site, where_given}
use sims_utils.Observation.State.{PhoSimMetaData, ByBandpass, ObservationMetaData}
use sims_utils.Observation.Assign.{assign_dict_keyed_to_bandpass, build_bounds}
use sims_utils.Observation.Methods.{
  set_pointing_ra, set_pointing_dec, set_bound_length, set_bound_type, set_rot_sky_pos, set_m5,
  set_seeing, assign_seeing, set_site, set_sky_brightness, set_mjd, set_bandpass_m5_and_seeing,
  guard, mjd_of,
}
use sims_utils.Observation.Steps.{
  Setter, apply, pointing_ra, pointing_dec, bound_length, rot_sky_pos, bound_type, m5, seeing,
  sky_brightness, site, mjd, bandpass_m5_and_seeing, pho_sim_meta_data,
}

module _ (N : Numpy) (A : Astropy N) where
  open N use {Object, literal, radians, degrees}

  -- What each property gives; the bounds, which follow from the others, are apart.
  pub record View : Type 0 where
    pub shown_ra : Option Object
    pub shown_dec : Option Object
    pub shown_length : Option Object
    pub shown_type : Option String
    pub shown_rotation : Option Object
    pub shown_m5 : Option (ByBandpass N)
    pub shown_seeing : Option (ByBandpass N)
    pub shown_site : Option (Site N)
    pub shown_mjd : Option (ModifiedJulianDate N A)
    pub shown_bandpass : Object
    pub shown_brightness : Option Object
    pub shown_pho_sim : Option (PhoSimMetaData N)

  -- The properties, under their names in the source
  abbrev pub get_pointing_ra : ObservationMetaData N A → Option Object
  get_pointing_ra o = where_given N degrees o.pointing_ra

  abbrev pub get_pointing_dec : ObservationMetaData N A → Option Object
  get_pointing_dec o = where_given N degrees o.pointing_dec

  abbrev pub get_bound_length : ObservationMetaData N A → Option Object
  get_bound_length o = where_given N degrees o.bound_length

  abbrev pub get_bound_type : ObservationMetaData N A → Option String
  get_bound_type o = o.bound_type

  abbrev pub get_rot_sky_pos : ObservationMetaData N A → Option Object
  get_rot_sky_pos o = where_given N degrees o.rot_sky_pos

  abbrev pub get_m5 : ObservationMetaData N A → Option (ByBandpass N)
  get_m5 o = o.m5

  abbrev pub get_seeing : ObservationMetaData N A → Option (ByBandpass N)
  get_seeing o = o.seeing

  abbrev pub get_site : ObservationMetaData N A → Option (Site N)
  get_site o = o.site

  abbrev pub get_mjd : ObservationMetaData N A → Option (ModifiedJulianDate N A)
  get_mjd o = o.mjd

  abbrev pub get_bandpass : ObservationMetaData N A → Object
  get_bandpass o = elim o.bandpass [ some b ↦ b | none ↦ literal "'r'" ]

  abbrev pub get_sky_brightness : ObservationMetaData N A → Option Object
  get_sky_brightness o = o.sky_brightness

  abbrev pub get_pho_sim_meta_data : ObservationMetaData N A → Option (PhoSimMetaData N)
  get_pho_sim_meta_data o = o.pho_sim_meta_data

  unfoldable pub view : ObservationMetaData N A → View
  view o = record {
    shown_ra = get_pointing_ra o;
    shown_dec = get_pointing_dec o;
    shown_length = get_bound_length o;
    shown_type = get_bound_type o;
    shown_rotation = get_rot_sky_pos o;
    shown_m5 = get_m5 o;
    shown_seeing = get_seeing o;
    shown_site = get_site o;
    shown_mjd = get_mjd o;
    shown_bandpass = get_bandpass o;
    shown_brightness = get_sky_brightness o;
    shown_pho_sim = get_pho_sim_meta_data o;
  }

  -- The value, where there is one
  abbrev pub or_nothing {ℓ} : {E : Type 0} {X : Type ℓ} → Result E (Option X) → Option X
  or_nothing (ok x) = x
  or_nothing (err e) = none

  -- What a caller of a setter expects to see: the value that was assigned, an angle as numpy takes
  -- it to radians and back to degrees, and all else as it was.
  unfoldable pub expected : Setter N A → ObservationMetaData N A → View → View
  expected (pointing_ra x) o w = record w { shown_ra = some (degrees (radians x)) }
  expected (pointing_dec x) o w = record w { shown_dec = some (degrees (radians x)) }
  expected (bound_length x) o w = record w { shown_length = some (degrees (radians x)) }
  expected (rot_sky_pos x) o w = record w { shown_rotation = some (degrees (radians x)) }
  expected (bound_type t) o w = record w { shown_type = t }
  expected (m5 x) o w = record w {
    shown_m5 = or_nothing (assign_dict_keyed_to_bandpass N o.bandpass x);
  }
  expected (seeing x) o w = record w {
    shown_seeing = or_nothing (assign_dict_keyed_to_bandpass N o.bandpass x);
  }
  expected (sky_brightness x) o w = record w { shown_brightness = x }
  expected (site s) o w = record w { shown_site = s }
  expected (mjd t) o w = elim (mjd_of N A (not true) t) [
    | ok m ↦ record w { shown_mjd = some m }
    | err e ↦ w
  ]
  expected (bandpass_m5_and_seeing b x y) o w = record w {
    shown_bandpass = elim b [ some name ↦ name | none ↦ literal "'r'" ];
    shown_m5 = or_nothing (assign_dict_keyed_to_bandpass N b x);
    shown_seeing = or_nothing (assign_dict_keyed_to_bandpass N b y);
  }
  expected (pho_sim_meta_data d) o w = w

  -- A setter of one property or of `setBandpassM5andSeeing`
  unfoldable pub IsDirect : Setter N A → Type 0
  IsDirect (pho_sim_meta_data d) = ⊥
  IsDirect _ = Unit

  build_bounds-view : (o : ObservationMetaData N A) → view (build_bounds N A o).1 ≡ view o
  unfolding view build_bounds
  build_bounds-view o = ground arith

  -- For every setter but that of phoSimMetaData, and for setBandpassM5andSeeing: if the call does
  -- not raise, the properties show afterwards what was assigned, an angle as np.degrees of
  -- np.radians of it (m5 and seeing by bandpass), and every other property but the bounds shows
  -- what it showed.
  pub view-apply :
      (c : Setter N A) (o : ObservationMetaData N A)
      → IsDirect c
      → (apply N A c o).0 ≡ ok tt
      → view (apply N A c o).1 ≡ expected c o (view o)
  unfolding apply expected IsDirect view where_given set_pointing_ra set_pointing_dec
      set_bound_length set_bound_type set_rot_sky_pos set_m5 set_seeing assign_seeing set_site
      set_sky_brightness set_mjd set_bandpass_m5_and_seeing guard
  view-apply (pointing_ra x) o direct h =
      ground (arith, build_bounds-view (record o { pointing_ra = some (radians x) }))
  view-apply (pointing_dec x) o direct h =
      ground (arith, build_bounds-view (record o { pointing_dec = some (radians x) }))
  view-apply (bound_length x) o direct h =
      ground (arith, build_bounds-view (record o { bound_length = some (radians x) }))
  view-apply (rot_sky_pos x) o direct h = ground arith
  view-apply (bound_type t) o direct h = build_bounds-view (record o { bound_type = t })
  view-apply (m5 x) o direct h = ground arith
  view-apply (seeing x) o direct h = ground arith
  view-apply (sky_brightness x) o direct h = refl
  view-apply (site s) o direct h = refl
  view-apply (mjd t) o direct h = ground arith
  view-apply (bandpass_m5_and_seeing b x y) o direct h = ground arith
  view-apply (pho_sim_meta_data d) o direct h = elim direct [ ]
