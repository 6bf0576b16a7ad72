-- ===== src/FocalPlane/Pupil.antt =====
-- pupilCoordsFromRaDec and raDecFromPupilCoords, arrays and mutable dates and all, point by point.
use sims_utils.Base.{◌≡◌, ap, ◌∙◌, true, some, List, map}
use sims_utils.Base.Action.{>>=-ok, ◌>>=◌}
use sims_utils.Base.Result.{ok}
use sims_utils.Numpy.{Numpy}
use sims_utils.Arrays.{map-map, pair_columns}
use sims_utils.Astropy.{Astropy}
use sims_utils.Palpy.Places.{Places, IsElementwise}
use sims_utils.Mjd.{ModifiedJulianDate}
use sims_utils.Mjd.Reads.{Given, IsCoherent}
use sims_utils.Site.{Site}
use sims_utils.Observation.State.{ObservationMetaData}
use sims_utils.Astrometry.Apparent.{Columns}
use sims_utils.Astrometry.Observed.{Observing}
use sims_utils.Astrometry.Points.{Place, parameters, at_date}
use sims_utils.FocalPlane.Projection.{
  projected, observed_in_2000, observed_pointing, gnomonic, gnomonic_or_nan, rotate, flip,
  can_project, pupil_coords_from_ra_dec_radians,
}
use sims_utils.FocalPlane.Points.{
  rotated, flipped, seen, pupil_point, rotate-eq, gnomonic-eq, observed_in_2000-eq,
  observed_pointing-eq, can_project-eq,
}

module _ (N : Numpy) (A : Astropy N) (P : Places N) where
  open N use {Object, literal, mul}

  pub flipped-columns :
      (xys : List (Object × Object))
      → (map (flip N A P) (map (λ p. p.0) xys), map (λ p. p.1) xys)
        ≡ pair_columns (map (flipped N A P) xys)
  flipped-columns xys = cc (
    map-map (flip N A P) (λ (p : Object × Object). p.0) xys,
    map-map (λ (p : Object × Object). p.0) (flipped N A P) xys,
    map-map (λ (p : Object × Object). p.1) (flipped N A P) xys,
  )

  module _ (law : IsElementwise N P) (g : Given N A) (prms : List Object)
      (o : ObservationMetaData N A) (s : Site N) (site : o.site ≡ some s)
      (computed : parameters N A P true s g ≡ some prms) where
    pointed-eq :
        (m : ModifiedJulianDate N A) (theta : Object) (pointing : Place N A P)
        (ps : List (Place N A P))
        → IsCoherent N A g m
        → (m' : ModifiedJulianDate N A) × (projected N A P
              (map (λ p. p.0) ps)
              (map (λ p. p.1) ps)
              (theta, pointing.0, pointing.1)
              (at_date N A P o m)
            ≡ (
              ok (pair_columns (map (pupil_point N A P prms g theta pointing) ps)),
              at_date N A P o m',
            ))
          × IsCoherent N A g m'
    unfolding projected pupil_point
    pointed-eq m theta pointing ps h =
        let (m', e, h') = observed_in_2000-eq N A P law g prms o s site computed m ps h in
        let (m'', e', h'') =
          observed_pointing-eq N A P law g prms o s site computed m' pointing h' in
        let tangent = seen N A P prms g pointing in
        let places = map (seen N A P prms g) ps in
        let turn : Columns N A P → Observing N A P (Columns N A P) =
          λ xy. rotate N A P theta (map (flip N A P) xy.0) xy.1 in
        let next : Columns N A P → Object × Object → Observing N A P (Columns N A P) =
          λ observed at. turn (gnomonic N A P observed.0 observed.1 at.0 at.1) in
        let xys = map (λ q. gnomonic_or_nan N A P tangent.0 tangent.1 q.0 q.1) places in
        (
          m'',
          >>=-ok (observed_in_2000 N A P (map (λ p. p.0) ps) (map (λ p. p.1) ps))
                (λ observed. observed_pointing N A P pointing.0 pointing.1 >>= next observed)
                (at_date N A P o m) e
              ∙ >>=-ok (observed_pointing N A P pointing.0 pointing.1) (next (pair_columns places))
                  (at_date N A P o m') e'
              ∙ ap (λ xy. turn xy (at_date N A P o m''))
                  (gnomonic-eq N A P law tangent.0 tangent.1 places)
              ∙ ap (λ xy. rotate N A P theta xy.0 xy.1 (at_date N A P o m'')) (flipped-columns xys)
              ∙ rotate-eq N A P theta (map (flipped N A P) xys) (at_date N A P o m'')
              ∙ ap (λ qs. (ok (pair_columns qs), at_date N A P o m''))
                  (map-map (rotated N A P theta) (flipped N A P) xys
                    ∙ map-map (λ xy. rotated N A P theta (flipped N A P xy))
                        (λ q. gnomonic_or_nan N A P tangent.0 tangent.1 q.0 q.1) places
                    ∙ map-map
                        (λ q.
                          rotated N A P theta
                            (flipped N A P (gnomonic_or_nan N A P tangent.0 tangent.1 q.0 q.1)))
                        (seen N A P prms g) ps),
          h'',
        )

    -- Of the columns of a list of places, with any epoch, an observation that has a site, a date, a
    -- rotation and a pointing, and parameters that palpy computes for that site at that date,
    -- `_pupilCoordsFromRaDec` gives place by place the pupil coordinates, with NaN for each place
    -- that palpy refuses to project and only there, whatever the date's cache holds. It leaves the
    -- observation as it was but for that cache, which still holds the date's own scales.
    pub pupil_coords-eq :
        (m : ModifiedJulianDate N A) (theta : Object) (pointing : Place N A P)
        (ps : List (Place N A P)) (epoch : Object)
        → IsCoherent N A g m
        → o.rot_sky_pos ≡ some theta
        → o.pointing_ra ≡ some pointing.0
        → o.pointing_dec ≡ some pointing.1
        → (m' : ModifiedJulianDate N A) × (pupil_coords_from_ra_dec_radians N A P
              (map (λ p. p.0) ps)
              (map (λ p. p.1) ps)
              (some epoch)
              (some (at_date N A P o m))
            ≡ (
              ok (pair_columns (map (pupil_point N A P prms g theta pointing) ps)),
              some (at_date N A P o m'),
            ))
          × IsCoherent N A g m'
    unfolding pupil_coords_from_ra_dec_radians
    pupil_coords-eq m theta pointing ps epoch h turned pointed_ra pointed_dec =
        let (m', e, h') = pointed-eq m theta pointing ps h in
        let ra = map (λ (p : Place N A P). p.0) ps in
        let dec = map (λ (p : Place N A P). p.1) ps in
        (
          m',
          ap (λ p. (p.0, some p.1))
              (>>=-ok (can_project N A P ra dec (some epoch)) (projected N A P ra dec)
                  (at_date N A P o m)
                  (can_project-eq N A P law g prms o s site computed turned pointed_ra pointed_dec m
                    ps epoch)
                ∙ e),
          h',
        )
