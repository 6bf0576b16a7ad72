-- ===== src/FocalPlane/Points.antt =====
-- The pupil coordinates of one point, and that the functions of arrays give them point by point.
use sims_utils.Base.{
  ◌≡◌, refl, ap, ◌∙◌, true, Option, none, some, List, [], ◌∷◌, map, sym, ◌⊎◌, inl, inr,
}
use sims_utils.Base.Action.{>>=-ok, ◌>>=◌, pure}
use sims_utils.Base.Result.{ok}
use sims_utils.Numpy.{Numpy}
use sims_utils.Arrays.{zip_with-map, broadcast-map, map-map, same_length, pair_columns}
use sims_utils.Astropy.{Astropy}
use sims_utils.Palpy.Places.{Places, IsElementwise, all_given}
use sims_utils.Mjd.{ModifiedJulianDate}
use sims_utils.Mjd.Reads.{Given, IsCoherent}
use sims_utils.Site.{Site}
use sims_utils.Observation.State.{ObservationMetaData}
use sims_utils.Astrometry.Actions.{kept, or_else, bad_shapes}
use sims_utils.Astrometry.Points.{
  Place, mean_place, unobserved_place, apparent_place, observed_place, parameters, at_date,
}
use sims_utils.Astrometry.Rest.{at_rest, observed_at_rest-eq}
use sims_utils.FocalPlane.Projection.{
  observed_in_2000, first, observed_pointing, gnomonic_or_nan, gnomonic, rotate, flip, orientation,
  can_project, can_deproject,
}

Option-cases : {X : Type 0} (o : Option X) → ((x : X) × (o ≡ some x)) ⊎ (o ≡ none)
Option-cases none = inr refl
Option-cases (some x) = inl (x, refl)

-- Where none is missing, a default is of no use.
all_given-eq :
    {X : Type 0} (d : X) (os : List (Option X)) {xs : List X}
    → all_given os ≡ some xs
    → map (λ o. elim o [ some x ↦ x | none ↦ d ]) os ≡ xs
all_given-eq d [] e = cc e
all_given-eq d (none ∷ os) e = cc e
all_given-eq d (some x ∷ os) e = elim (Option-cases (all_given os)) [
  | inl (ys, e') ↦ cc (rw (e', all_given) at e, all_given-eq d os e')
  | inr e' ↦ cc (rw (e', all_given) at e)
]

module _ (N : Numpy) (A : Astropy N) (P : Places N) where
  open N use {Object, literal, add, sub, mul, sin, cos, nan}

  abbrev pub rotated : Object → Object × Object → Object × Object
  rotated theta xy = (
    sub (mul xy.0 (cos theta)) (mul xy.1 (sin theta)),
    add (mul xy.0 (sin theta)) (mul xy.1 (cos theta)),
  )

  abbrev pub flipped : Object × Object → Object × Object
  flipped xy = (flip N A P xy.0, xy.1)

  -- Where a place without motion is observed, for the epoch 2000.
  unfoldable pub seen : List Object → Given N A → Place N A P → Place N A P
  seen prms g p =
      observed_place N A P prms (apparent_place N A P (literal "2000.0") g (at_rest N A P p))

  -- The pupil coordinates of a place, about a pointing and turned by an angle.
  unfoldable pub pupil_point :
      List Object → Given N A → Object → Place N A P → Place N A P → Object × Object
  pupil_point prms g theta pointing p =
      let tangent = seen prms g pointing in
      let q = seen prms g p in
      rotated theta (flipped (gnomonic_or_nan N A P tangent.0 tangent.1 q.0 q.1))

  -- The place of a point of the pupil.
  unfoldable pub sky_point :
      List Object → Given N A → Object → Place N A P → Object × Object → Place N A P
  sky_point prms g theta pointing xy =
      let tangent = seen prms g pointing in
      let xy_g = flipped (rotated (mul (literal "-1.0") theta) xy) in
      mean_place N A P (literal "2000.0") g
        (unobserved_place N A P prms (P.dtp2s xy_g.0 xy_g.1 tangent.0 tangent.1))

  pub rotate-eq :
      (theta : Object) (xys : List (Object × Object)) (o : ObservationMetaData N A)
      → rotate N A P theta (map (λ p. p.0) xys) (map (λ p. p.1) xys) o
        ≡ (ok (pair_columns (map (rotated theta) xys)), o)
  unfolding rotate
  rotate-eq theta xys o = simp (
    map-map (λ a. mul a (cos theta)) (λ (p : Object × Object). p.0) xys,
    map-map (λ a. mul a (sin theta)) (λ (p : Object × Object). p.0) xys,
    map-map (λ a. mul a (cos theta)) (λ (p : Object × Object). p.1) xys,
    map-map (λ a. mul a (sin theta)) (λ (p : Object × Object). p.1) xys,
    broadcast-map sub (λ (p : Object × Object). mul p.0 (cos theta)) (λ p. mul p.1 (sin theta)) xys,
    broadcast-map add (λ (p : Object × Object). mul p.0 (sin theta)) (λ p. mul p.1 (cos theta)) xys,
    map-map (λ (p : Object × Object). p.0) (rotated theta) xys,
    map-map (λ (p : Object × Object). p.1) (rotated theta) xys,
  )

  module _ (law : IsElementwise N P) where
    -- The projection of two columns, by `palpy.ds2tpVector` or by the loop that takes its place where
    -- it raises, is the projection of each point by itself, with NaN where palpy refuses the point.
    pub gnomonic-eq :
        (ra dec : Object) (ps : List (Place N A P))
        → gnomonic N A P (map (λ p. p.0) ps) (map (λ p. p.1) ps) ra dec
          ≡ pair_columns (map (λ p. gnomonic_or_nan N A P ra dec p.0 p.1) ps)
    unfolding gnomonic gnomonic_or_nan
    gnomonic-eq ra dec ps = elim (Option-cases (all_given (map (λ p. P.ds2tp p.0 p.1 ra dec) ps))) [
      | inl (xys, e) ↦
          rw (law.ds2tp_each ps ra dec, gnomonic, e)
            (ap pair_columns (
              sym (all_given-eq (nan, nan) (map (λ p. P.ds2tp p.0 p.1 ra dec) ps) e)
              ∙ map-map (λ o. elim o [ some xy ↦ xy | none ↦ (nan, nan) ])
                  (λ (p : Place N A P). P.ds2tp p.0 p.1 ra dec) ps))
      | inr e ↦
          rw (law.ds2tp_each ps ra dec, gnomonic, e)
            (ap pair_columns (
              zip_with-map (gnomonic_or_nan N A P ra dec) (λ (p : Place N A P). p.0) (λ p. p.1) ps))
    ]

    module _ (g : Given N A) (prms : List Object) (o : ObservationMetaData N A) (s : Site N)
        (site : o.site ≡ some s) (computed : parameters N A P true s g ≡ some prms) where
      pub observed_in_2000-eq :
          (m : ModifiedJulianDate N A) (ps : List (Place N A P))
          → IsCoherent N A g m
          → (m' : ModifiedJulianDate N A) × (observed_in_2000 N A P
                (map (λ p. p.0) ps)
                (map (λ p. p.1) ps)
                (at_date N A P o m)
              ≡ (ok (pair_columns (map (seen prms g) ps)), at_date N A P o m'))
            × IsCoherent N A g m'
      unfolding observed_in_2000 seen
      observed_in_2000-eq m ps h =
          let (m', e, h') =
            observed_at_rest-eq N A P law (literal "2000.0") g o m ps true h site computed in
          (m', ap (λ p. (p.0, kept (at_date N A P o m) p.1)) e, h')

      pub observed_pointing-eq :
          (m : ModifiedJulianDate N A) (p : Place N A P)
          → IsCoherent N A g m
          → (m' : ModifiedJulianDate N A) × (observed_pointing N A P p.0 p.1 (at_date N A P o m)
              ≡ (ok (seen prms g p), at_date N A P o m'))
            × IsCoherent N A g m'
      unfolding observed_pointing first
      observed_pointing-eq m p h =
          let (m', e, h') = observed_in_2000-eq m (p ∷ []) h in
          (
            m',
            >>=-ok (observed_in_2000 N A P (p.0 ∷ []) (p.1 ∷ []))
                (λ temp. do
                  ra ← or_else bad_shapes (first N A P temp.0)
                  dec ← or_else bad_shapes (first N A P temp.1)
                  pure (ra, dec))
                (at_date N A P o m) e,
            h',
          )

      module _ {theta : Object} {pointing : Place N A P} (turned : o.rot_sky_pos ≡ some theta)
          (pointed_ra : o.pointing_ra ≡ some pointing.0)
          (pointed_dec : o.pointing_dec ≡ some pointing.1) where
        pub can_project-eq :
            (m : ModifiedJulianDate N A) (ps : List (Place N A P)) (epoch : Object)
            → can_project N A P
                (map (λ p. p.0) ps)
                (map (λ p. p.1) ps)
                (some epoch)
                (at_date N A P o m)
              ≡ (ok (theta, pointing.0, pointing.1), at_date N A P o m)
        unfolding can_project orientation
        can_project-eq m ps epoch =
            simp (
              turned,
              pointed_ra,
              pointed_dec,
              same_length (λ (p : Place N A P). p.0) (λ p. p.1) ps,
            )

        pub can_deproject-eq :
            (m : ModifiedJulianDate N A) (xys : List (Object × Object)) (epoch : Object)
            → can_deproject N A P
                (map (λ p. p.0) xys)
                (map (λ p. p.1) xys)
                (some epoch)
                (at_date N A P o m)
              ≡ (ok (theta, pointing.0, pointing.1), at_date N A P o m)
        unfolding can_deproject orientation
        can_deproject-eq m xys epoch =
            simp (
              turned,
              pointed_ra,
              pointed_dec,
              same_length (λ (p : Place N A P). p.0) (λ p. p.1) xys,
            )
