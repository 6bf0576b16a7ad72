-- ===== src/FocalPlane/Sky.antt =====
-- raDecFromPupilCoords, arrays and mutable dates and all, is a map over the points of the pupil.
use sims_utils.Base.{◌≡◌, ap, ◌∙◌, true, some, List, map}
use sims_utils.Base.Action.{>>=-ok, ◌>>=◌}
use sims_utils.Base.Result.{ok, or_raise}
use sims_utils.Numpy.{Numpy}
use sims_utils.Arrays.{map-map, pair_columns}
use sims_utils.Astropy.{Astropy}
use sims_utils.Palpy.Places.{Places, IsElementwise}
use sims_utils.Mjd.{ModifiedJulianDate}
use sims_utils.Mjd.Reads.{Given, IsCoherent}
use sims_utils.Site.{Site}
use sims_utils.Observation.State.{ObservationMetaData}
use sims_utils.Astrometry.Actions.{on_some, kept, or_else, palpy_raised}
use sims_utils.Astrometry.Apparent.{Columns}
use sims_utils.Astrometry.Observed.{Observing, icrs_from_observed_radians}
use sims_utils.Astrometry.Points.{Place, mean_place, unobserved_place, parameters, at_date}
use sims_utils.Astrometry.Chain.{icrs_from_observed-eq}
use sims_utils.FocalPlane.Projection.{
  deprojected, observed_pointing, rotate, flip, can_deproject, ra_dec_from_pupil_coords_radians,
}
use sims_utils.FocalPlane.Points.{
  rotated, flipped, seen, sky_point, can_deproject-eq, rotate-eq, observed_pointing-eq,
}
use sims_utils.FocalPlane.Pupil.{flipped-columns}

module _ (N : Numpy) (A : Astropy N) (P : Places N) where
  open N use {Object, literal, mul}

  module _ (law : IsElementwise N P) (g : Given N A) (prms : List Object)
      (o : ObservationMetaData N A) (s : Site N) (site : o.site ≡ some s)
      (computed : parameters N A P true s g ≡ some prms) where
    back-eq :
        (m : ModifiedJulianDate N A) (theta : Object) (pointing : Place N A P)
        (xys : List (Object × Object))
        → IsCoherent N A g m
        → (m' : ModifiedJulianDate N A) × (deprojected N A P
              (map (λ p. p.0) xys)
              (map (λ p. p.1) xys)
              (theta, pointing.0, pointing.1)
              (at_date N A P o m)
            ≡ (
              ok (pair_columns (map (sky_point N A P prms g theta pointing) xys)),
              at_date N A P o m',
            ))
          × IsCoherent N A g m'
    unfolding deprojected sky_point
    back-eq m theta pointing xys h =
        let tangent = seen N A P prms g pointing in
        let theta' = mul (literal "-1.0") theta in
        let turned = map (λ xy. flipped N A P (rotated N A P theta' xy)) xys in
        let places = map (λ xy. P.dtp2s xy.0 xy.1 tangent.0 tangent.1) turned in
        let (m', e, h') = observed_pointing-eq N A P law g prms o s site computed m pointing h in
        let (m'', e', h'') =
          icrs_from_observed-eq N A P law g o m' places (literal "2000.0") true h' site computed in
        let last : Columns N A P → Observing N A P (Columns N A P) = λ observed.
          on_some (
            icrs_from_observed_radians N A P observed.0 observed.1 (some (literal "2000.0"))
              true) in
        let sphere : Object × Object → Columns N A P → Observing N A P (Columns N A P) =
          λ at xy. or_else palpy_raised (P.dtp2s_vector xy.0 xy.1 at.0 at.1) in
        let turn = rotate N A P theta' (map (λ p. p.0) xys) (map (λ p. p.1) xys) in
        let next : Object × Object → Columns N A P → Observing N A P (Columns N A P) =
          λ at xy. sphere at (map (flip N A P) xy.0, xy.1) >>= last in
        (
          m'',
          >>=-ok (observed_pointing N A P pointing.0 pointing.1) (λ at. turn >>= next at)
                (at_date N A P o m) e
              ∙ >>=-ok turn (next tangent) (at_date N A P o m')
                  (rotate-eq N A P theta' xys (at_date N A P o m'))
              ∙ ap (λ xy. (sphere tangent xy >>= last) (at_date N A P o m'))
                  (flipped-columns N A P (map (rotated N A P theta') xys)
                    ∙ ap pair_columns (map-map (flipped N A P) (rotated N A P theta') xys))
              ∙ >>=-ok (sphere tangent (pair_columns turned)) last (at_date N A P o m') (
                  ap (λ r. (or_raise r palpy_raised, at_date N A P o m'))
                    (law.dtp2s_each turned tangent.0 tangent.1))
              ∙ ap (λ p. (p.0, kept (at_date N A P o m') p.1)) e'
              ∙ ap (λ qs. (ok (pair_columns qs), at_date N A P o m''))
                  (ap
                      (map (λ p.
                        mean_place N A P (literal "2000.0") g (unobserved_place N A P prms p)))
                      (map-map (λ xy. P.dtp2s xy.0 xy.1 tangent.0 tangent.1)
                        (λ xy. flipped N A P (rotated N A P theta' xy)) xys)
                    ∙ map-map
                        (λ p. mean_place N A P (literal "2000.0") g (unobserved_place N A P prms p))
                        (λ xy.
                          let xy_g = flipped N A P (rotated N A P theta' xy) in
                          P.dtp2s xy_g.0 xy_g.1 tangent.0 tangent.1)
                        xys),
          h'',
        )

    -- Of the columns of a list of points of the pupil, under the same conditions as those of
    -- `_pupilCoordsFromRaDec`, `_raDecFromPupilCoords` gives point by point the place that is seen
    -- there, whatever the date's cache holds, and leaves the observation as it was but for that
    -- cache, which still holds the date's own scales.
    pub ra_dec-eq :
        (m : ModifiedJulianDate N A) (theta : Object) (pointing : Place N A P)
        (xys : List (Object × Object)) (epoch : Object)
        → IsCoherent N A g m
        → o.rot_sky_pos ≡ some theta
        → o.pointing_ra ≡ some pointing.0
        → o.pointing_dec ≡ some pointing.1
        → (m' : ModifiedJulianDate N A) × (ra_dec_from_pupil_coords_radians N A P
              (map (λ p. p.0) xys)
              (map (λ p. p.1) xys)
              (some epoch)
              (some (at_date N A P o m))
            ≡ (
              ok (pair_columns (map (sky_point N A P prms g theta pointing) xys)),
              some (at_date N A P o m'),
            ))
          × IsCoherent N A g m'
    unfolding ra_dec_from_pupil_coords_radians
    ra_dec-eq m theta pointing xys epoch h turned pointed_ra pointed_dec =
        let (m', e, h') = back-eq m theta pointing xys h in
        let x = map (λ (p : Object × Object). p.0) xys in
        let y = map (λ (p : Object × Object). p.1) xys in
        (
          m',
          ap (λ p. (p.0, some p.1))
              (>>=-ok (can_deproject N A P x y (some epoch)) (deprojected N A P x y)
                  (at_date N A P o m)
                  (can_deproject-eq N A P law g prms o s site computed turned pointed_ra pointed_dec
                    m xys epoch)
                ∙ e),
          h',
        )
