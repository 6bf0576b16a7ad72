-- ===== src/FocalPlane/Back.antt =====
-- From places of the sky to the pupil and back: the second function gives palpy.dtp2s what
-- palpy.ds2tp gave the first one.
use sims_utils.Base.{◌≡◌, ap, ◌∙◌, true, none, some, List, map}
use sims_utils.Base.Action.{>>=-ok, ◌>>=◌}
use sims_utils.Base.Result.{ok}
use sims_utils.Numpy.{Numpy}
use sims_utils.Arrays.{pair_columns, map-map}
use sims_utils.Astropy.{Astropy}
use sims_utils.Palpy.Places.{Places, IsElementwise}
use sims_utils.Mjd.{ModifiedJulianDate}
use sims_utils.Mjd.Reads.{Given, IsCoherent}
use sims_utils.Site.{Site}
use sims_utils.Observation.State.{ObservationMetaData}
use sims_utils.Astrometry.Apparent.{Columns}
use sims_utils.Astrometry.Observed.{Maybe}
use sims_utils.Astrometry.Points.{Place, mean_place, unobserved_place, parameters, at_date}
use sims_utils.FocalPlane.Projection.{
  gnomonic_or_nan, pupil_coords_from_ra_dec_radians, ra_dec_from_pupil_coords_radians,
}
use sims_utils.FocalPlane.Points.{seen, pupil_point, sky_point}
use sims_utils.FocalPlane.Pupil.{pupil_coords-eq}
use sims_utils.FocalPlane.Sky.{ra_dec-eq}
use sims_utils.FocalPlane.Rotation.{IsExact, turn_back}

module _ (N : Numpy) (A : Astropy N) (P : Places N) where
  open N use {Object, literal, mul}

  unfoldable pub pupil_and_back : List Object → List Object → Object → Maybe N A P (Columns N A P)
  unfolding pupil_coords_from_ra_dec_radians ra_dec_from_pupil_coords_radians
  pupil_and_back ra dec epoch = do
    xy ← pupil_coords_from_ra_dec_radians N A P ra dec (some epoch)
    ra_dec_from_pupil_coords_radians N A P xy.0 xy.1 (some epoch)

  module _ (g : Given N A) (prms : List Object) (pointing : Place N A P) where
    -- The mean place of what palpy makes of its own projection of a place, about the pointing as it
    -- is seen
    unfoldable pub reprojected : Place N A P → Place N A P
    reprojected p =
        let tangent = seen N A P prms g pointing in
        let q = seen N A P prms g p in
        let xy : Object × Object = elim (P.ds2tp q.0 q.1 tangent.0 tangent.1) [
          | some at ↦ at
          | none ↦ (N.nan, N.nan)
        ] in
        mean_place N A P (literal "2000.0") g
          (unobserved_place N A P prms (P.dtp2s xy.0 xy.1 tangent.0 tangent.1))

  module _ (exact : IsExact N) (g : Given N A) (prms : List Object) (theta : Object)
      (pointing : Place N A P) where
    sky-pupil :
        (p : Place N A P)
        → sky_point N A P prms g theta pointing (pupil_point N A P prms g theta pointing p)
          ≡ reprojected g prms pointing p
    unfolding sky_point pupil_point gnomonic_or_nan reprojected
    sky-pupil p =
        let tangent = seen N A P prms g pointing in
        let q = seen N A P prms g p in
        let to_sky : Object × Object → Place N A P = λ at.
          mean_place N A P (literal "2000.0") g
            (unobserved_place N A P prms (P.dtp2s at.0 at.1 tangent.0 tangent.1)) in
        ap to_sky (
          turn_back N A P exact theta
            (elim (P.ds2tp q.0 q.1 tangent.0 tangent.1) [ some at ↦ at | none ↦ (N.nan, N.nan) ]))

    -- In exact arithmetic, of an observation with a site, a date, a rotation and a pointing and with
    -- parameters that palpy computes, `_pupilCoordsFromRaDec` and then `_raDecFromPupilCoords` on
    -- what it gave, on the observation that it left, give place by place the mean place of what
    -- `palpy.dtp2s` makes of just what `palpy.ds2tp` made of the place, both about the pointing as
    -- it is seen: the rotations and the signs of x cancel. They leave the observation as it was but
    -- for its date's cache.
    pub pupil_and_back-eq :
        IsElementwise N P
        → (o : ObservationMetaData N A) (m : ModifiedJulianDate N A) {s : Site N}
          (ps : List (Place N A P)) (epoch : Object)
        → IsCoherent N A g m
        → o.site ≡ some s
        → parameters N A P true s g ≡ some prms
        → o.rot_sky_pos ≡ some theta
        → o.pointing_ra ≡ some pointing.0
        → o.pointing_dec ≡ some pointing.1
        → (m' : ModifiedJulianDate N A) × (pupil_and_back
              (map (λ p. p.0) ps)
              (map (λ p. p.1) ps)
              epoch
              (some (at_date N A P o m))
            ≡ (ok (pair_columns (map (reprojected g prms pointing) ps)), some (at_date N A P o m')))
    unfolding pupil_and_back
    pupil_and_back-eq law o m {s} ps epoch h site computed turned pointed_ra pointed_dec =
        let (m', e, h') =
          pupil_coords-eq N A P law g prms o s site computed m theta pointing ps epoch h turned
            pointed_ra pointed_dec in
        let (m'', e', h'') =
          ra_dec-eq N A P law g prms o s site computed m' theta pointing
            (map (pupil_point N A P prms g theta pointing) ps) epoch h' turned pointed_ra
            pointed_dec in
        (
          m'',
          >>=-ok
                (pupil_coords_from_ra_dec_radians N A P (map (λ p. p.0) ps) (map (λ p. p.1) ps)
                  (some epoch))
                (λ xy. ra_dec_from_pupil_coords_radians N A P xy.0 xy.1 (some epoch))
                (some (at_date N A P o m)) e
              ∙ e'
              ∙ ap (λ qs. (ok (pair_columns qs), some (at_date N A P o m'')))
                  (map-map (sky_point N A P prms g theta pointing)
                      (pupil_point N A P prms g theta pointing) ps
                    ∙ ap (λ f. map f ps) (λ i p. sky-pupil p i)),
        )
