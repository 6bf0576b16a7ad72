-- ===== src/Astrometry/Untouched.antt =====
-- What the functions of places leave of the observation that they are given, when they raise too.
use sims_utils.Base.{
  ◌≡◌, refl, sym, subst, ap, ◌∙◌, String, Bool, true, false, Option, none, some, List, is_some,
}
use sims_utils.Base.Action.{Action}
use sims_utils.Base.Frame.{
  Frame, IsSafe, evaluate-IsSafe, raise_when-IsSafe, >>=-IsSafe, pure-IsSafe,
}
use sims_utils.Numpy.{Numpy}
use sims_utils.Astropy.{Astropy}
use sims_utils.Palpy.Places.{Places}
use sims_utils.Mjd.{ModifiedJulianDate, Scale}
use sims_utils.Mjd.Reads.{Given, IsCoherent, read_lem}
use sims_utils.Observation.State.{ObservationMetaData}
use sims_utils.Astrometry.Actions.{
  AstrometryError, or_else, on_mjd, on_some, kept, unless_none, read_scale,
}
use sims_utils.Astrometry.Apparent.{app_geo_from_icrs_radians, icrs_from_app_geo_radians}
use sims_utils.Astrometry.Observed.{
  calculate_observatory_parameters, alt_az, observes, places_in, observed_from_app_geo_radians,
  app_geo_from_observed_radians, epoch_for, observed_next, observed_from_icrs_radians,
  icrs_from_observed_radians,
}

pub or_else-IsSafe :
    {S X : Type 0} (F : Frame S) (e : AstrometryError) (x : Option X) → IsSafe F (or_else e x)
or_else-IsSafe F e x = record { frame = λ s h. F.nothing s h }

pub ruleset steps = (>>=-IsSafe, raise_when-IsSafe, evaluate-IsSafe, pure-IsSafe, or_else-IsSafe)

module _ (N : Numpy) (A : Astropy N) (g : Given N A) where
  -- If there is a date, it is the one that was given.
  abbrev pub IsRight : Option (ModifiedJulianDate N A) → Type 0
  IsRight none = Unit
  IsRight (some m) = IsCoherent N A g m

  abbrev pub dates : Frame (Option (ModifiedJulianDate N A))
  dates = record {
    Starts = IsRight;
    Changes = λ d d'. (is_some d' ≡ is_some d) × IsRight d';
    nothing = λ d h. (refl, h);
    follows = λ d d' (e, h). h;
    both = λ d d' d'' (e, h) (e', h'). (e' ∙ e, h');
  }

  abbrev with_mjd :
      Option (ModifiedJulianDate N A) → ObservationMetaData N A → ObservationMetaData N A
  with_mjd d o = record o { mjd = d }

  -- One observation is another but for what its date keeps.
  abbrev pub IsLeftOf : ObservationMetaData N A → ObservationMetaData N A → Type 0
  IsLeftOf o o' = (o' ≡ with_mjd o'.mjd o) × (is_some o'.mjd ≡ is_some o.mjd) × IsRight o'.mjd

  abbrev pub observations : Frame (ObservationMetaData N A)
  observations = record {
    Starts = λ o. IsRight o.mjd;
    Changes = IsLeftOf;
    nothing = λ o h. (refl, refl, h);
    follows = λ o o' h. h.2;
    both = λ o o' o'' (same, dated, _) (same', dated', right).
        (same' ∙ ap (with_mjd o''.mjd) same, dated' ∙ dated, right);
  }

  module _ {X : Type 0} where
    -- of an action on an observation or on `None`
    pub record IsSafeForSome (m : Action (Option (ObservationMetaData N A)) AstrometryError X)
        : Type 0 where
      pub leaves :
          (o : ObservationMetaData N A)
          → IsRight o.mjd
          → (o' : ObservationMetaData N A) × ((m (some o)).1 ≡ some o') × IsLeftOf o o'

    pub on_mjd-IsSafe :
        (m : Action (Option (ModifiedJulianDate N A)) AstrometryError X)
        → IsSafe dates m
        → IsSafe observations (on_mjd N A m)
    on_mjd-IsSafe m safe = record {
      frame = λ o h. let (e, h') = safe.frame o.mjd h in (refl, e, h');
    }

    pub on_some-IsSafe :
        (m : Action (Option (ObservationMetaData N A)) AstrometryError X)
        → IsSafeForSome m
        → IsSafe observations (on_some m)
    on_some-IsSafe m safe = record {
      frame = λ o h.
          let (o', e, left) = safe.leaves o h in subst (IsLeftOf o) (sym (ap (kept o) e)) left;
    }

    pub unless_none-IsSafe :
        (e : AstrometryError) (m : Action (ObservationMetaData N A) AstrometryError X)
        → IsSafe observations m
        → IsSafeForSome (unless_none e m)
    unless_none-IsSafe e m safe = record { leaves = λ o h. ((m o).1, refl, safe.frame o h) }

  read_frame :
      (q : Scale) (d : Option (ModifiedJulianDate N A))
      → IsRight d
      → (is_some (read_scale N A q d).1 ≡ is_some d) × IsRight (read_scale N A q d).1
  unfolding read_scale
  read_frame q none h = (refl, tt)
  read_frame q (some m) h = (refl, (read_lem N A g q m h).1)

  -- A read of a scale keeps the date right.
  pub read_scale-IsSafe : (q : Scale) → IsSafe dates (read_scale N A q)
  read_scale-IsSafe q = record { frame = λ d h. read_frame q d h }

  module _ (P : Places N) where
    open N use {Object, literal}

    app_geo-IsSafe :
        (ra dec : List Object) (pm_ra pm_dec parallax v_rad : Option (List Object)) (epoch : Object)
        → IsSafe dates (app_geo_from_icrs_radians N A P ra dec pm_ra pm_dec parallax v_rad epoch)
    unfolding app_geo_from_icrs_radians
    app_geo-IsSafe ra dec pm_ra pm_dec parallax v_rad epoch = search (steps, read_scale-IsSafe)

    icrs-IsSafe :
        (ra dec : List Object) (epoch : Object)
        → IsSafe dates (icrs_from_app_geo_radians N A P ra dec epoch)
    unfolding icrs_from_app_geo_radians
    icrs-IsSafe ra dec epoch = search (steps, read_scale-IsSafe)

    parameters-IsSafe :
        (wavelength : Object) (include_refraction : Bool)
        → IsSafe observations (calculate_observatory_parameters N A P wavelength include_refraction)
    unfolding calculate_observatory_parameters
    parameters-IsSafe wavelength include_refraction =
        search (steps, on_mjd-IsSafe, read_scale-IsSafe)

    observes-IsSafe :
        (name : String) (ra dec : List Object) → IsSafe observations (observes N A P name ra dec)
    unfolding observes
    observes-IsSafe name ra dec = search (steps)

    epoch_for-IsSafe :
        (name : String) (epoch : Option Object) (ra dec : List Object)
        → IsSafe observations (epoch_for N A P name epoch ra dec)
    unfolding epoch_for
    epoch_for-IsSafe name epoch ra dec = search (steps)

    alt_az-IsSafe :
        (wanted : Bool) (prms ra : List Object) → IsSafe observations (alt_az N A P wanted prms ra)
    unfolding alt_az
    alt_az-IsSafe true ha dec = search (steps)
    alt_az-IsSafe false ha dec = search (steps)

    places_in-IsSafe :
        (ra dec : List Object) (wanted : Bool) (prms : List Object)
        → IsSafe observations (places_in N A P ra dec wanted prms)
    unfolding places_in
    places_in-IsSafe ra dec wanted prms = search (steps, alt_az-IsSafe)

    observed-IsSafe :
        (ra dec : List Object) (include_refraction wanted : Bool) (wavelength : Object)
        → IsSafeForSome
            (observed_from_app_geo_radians N A P ra dec include_refraction wanted wavelength)
    unfolding observed_from_app_geo_radians
    observed-IsSafe ra dec include_refraction wanted wavelength =
        (search (unless_none-IsSafe, steps, observes-IsSafe, parameters-IsSafe, places_in-IsSafe))

    app_geo_back-IsSafe :
        (ra dec : List Object) (include_refraction : Bool) (wavelength : Object)
        → IsSafeForSome (app_geo_from_observed_radians N A P ra dec include_refraction wavelength)
    unfolding app_geo_from_observed_radians
    app_geo_back-IsSafe ra dec include_refraction wavelength =
        (search (unless_none-IsSafe, steps, observes-IsSafe, parameters-IsSafe))

    observed_next-IsSafe :
        (include_refraction : Bool) (apparent : List Object × List Object)
        → IsSafe observations (observed_next N A P include_refraction apparent)
    unfolding observed_next
    observed_next-IsSafe include_refraction apparent =
        search (steps, on_some-IsSafe, observed-IsSafe)

    pub observed_from_icrs-IsSafe :
        (ra dec : List Object) (pm_ra pm_dec parallax v_rad : Option (List Object))
        (epoch : Option Object) (include_refraction : Bool)
        → IsSafeForSome (
            observed_from_icrs_radians N A P ra dec pm_ra pm_dec parallax v_rad epoch
              include_refraction)
    unfolding observed_from_icrs_radians
    observed_from_icrs-IsSafe ra dec pm_ra pm_dec parallax v_rad epoch include_refraction =
        (search (
          unless_none-IsSafe, steps, epoch_for-IsSafe, on_mjd-IsSafe, app_geo-IsSafe,
          observed_next-IsSafe,
        ))

    pub icrs_from_observed-IsSafe :
        (ra dec : List Object) (epoch : Option Object) (include_refraction : Bool)
        → IsSafeForSome (icrs_from_observed_radians N A P ra dec epoch include_refraction)
    unfolding icrs_from_observed_radians
    icrs_from_observed-IsSafe ra dec epoch include_refraction =
        (search (
          unless_none-IsSafe, steps, epoch_for-IsSafe, on_some-IsSafe, app_geo_back-IsSafe,
          on_mjd-IsSafe, icrs-IsSafe,
        ))
