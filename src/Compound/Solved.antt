-- ===== src/Compound/Solved.antt =====
-- The observed place of an altitude and azimuth, in formulas that stand beside those of the code.
use sims_utils.Base.{◌≡◌, refl, ap, ◌∙◌, Bool, not, ◌||◌, arith, if◌then◌else◌}
use sims_utils.Base.Result.{ok}
use sims_utils.Numpy.{Numpy}
use sims_utils.Arrays.{map-map}
use sims_utils.Compound.Angles.{Angles, single, column, is_column, each, each-each, between-each}
use sims_utils.Compound.Triangle.{
  column_angle, single_angle, hour_angle, east_or_west, dec_above, cos_theta, observed_at,
}

module _ (N : Numpy) where
  open N use {
    Object, literal, add, sub, mul, div, lt, eq, pi, radians, sin, cos, arcsin, arccos, sign,
    is_nan,
  }

  abbrev angle_of : {X : Type 0} → Angles X → Object → Object
  angle_of (single x) = single_angle N
  angle_of (column xs) = column_angle N

  abbrev dec_of : Object → Object × Object → Object
  dec_of lat p = arcsin (add (mul (sin lat) (sin p.0)) (mul (mul (cos lat) (cos p.0)) (cos p.1)))

  abbrev cosine_of : Object → Object × Object → Object
  cosine_of lat p =
      div (sub (sin p.0) (mul (sin (dec_of lat p)) (sin lat))) (mul (cos (dec_of lat p)) (cos lat))

  -- The size of the hour angle that has a cosine: the arccosine, and where that is NaN, 0 or pi by the
  -- sign of a number, and half of pi for each unit that the sign of an item of an array is below 1.
  unfoldable pub hour_from_cosine : Bool → Object → Object
  hour_from_cosine in_array c =
      if not (is_nan (arccos c))
      then arccos c
      else if in_array
      then mul (mul (literal "0.5") pi) (sub (literal "1.0") (sign c))
      else if lt (literal "0.0") (sign c)
      then literal "0.0"
      else pi

  -- The observed place of an altitude and azimuth, at a sidereal time in hours and a latitude: the
  -- sine of its Dec is sin(lat) sin(alt) + cos(lat) cos(alt) cos(az), and its RA is the sidereal
  -- time less an hour angle whose cosine is (sin(alt) - sin(dec) sin(lat)) / (cos(dec) cos(lat)),
  -- taken with -1.0 where the sine of the azimuth is above 0 or 0.
  unfoldable pub triangle_point : Bool → Object → Object → Object × Object → Object × Object
  triangle_point in_array last lat p =
      let hour = hour_from_cosine in_array (cosine_of lat p) in
      (
        if lt (literal "0.0") (sin p.1) || eq (literal "0.0") (sin p.1)
            then sub (radians (mul last (literal "15."))) (mul (literal "-1.0") hour)
            else sub (radians (mul last (literal "15."))) hour,
        dec_of lat p,
      )

  hour_angle-each :
      {S : Type 0} (f : S → Object) (ss : Angles S)
      → hour_angle N (each f ss) ≡ each (λ s. angle_of ss (f s)) ss
  unfolding hour_angle each
  hour_angle-each f (single s) = refl
  hour_angle-each f (column ss) = ap column (map-map (column_angle N) f ss)

  angle_of-hour :
      {X : Type 0} (ss : Angles X) (c : Object) → angle_of ss c ≡ hour_from_cosine (is_column ss) c
  unfolding hour_from_cosine single_angle column_angle
  angle_of-hour (single s) c = ground arith
  angle_of-hour (column ss) c = ground arith

  -- The RA of the place, in the terms of the code
  turned_west :
      {X : Type 0} (ss : Angles X) (last lat : Object) (p : Object × Object)
      → sub
          (radians (mul last (literal "15.")))
          (east_or_west N p.1 (angle_of ss (cosine_of lat p)))
        ≡ (triangle_point (is_column ss) last lat p).0
  unfolding triangle_point east_or_west
  turned_west ss last lat p = rw (angle_of-hour ss (cosine_of lat p)) (ground arith)

  pub observed_at-eq :
      (last lat : Object) (ps : Angles (Object × Object))
      → observed_at N last lat (each (λ p. p.0) ps) (each (λ p. p.1) ps)
        ≡ ok (
          each (λ p. (triangle_point (is_column ps) last lat p).0) ps,
          each (λ p. (triangle_point (is_column ps) last lat p).1) ps,
        )
  unfolding observed_at dec_above cos_theta triangle_point
  observed_at-eq last lat ps =
      let sidereal = radians (mul last (literal "15.")) in
      let ra_of : Object × Object → Object =
        λ p. sub sidereal (east_or_west N p.1 (angle_of ps (cosine_of lat p))) in
      let e : observed_at N last lat (each (λ p. p.0) ps) (each (λ p. p.1) ps)
          ≡ ok (each ra_of ps, each (dec_of lat) ps) =
        simp (each-each, between-each, hour_angle-each) in
      e ∙ ap (λ f. ok (each f ps, each (dec_of lat) ps)) (λ i p. turned_west ps last lat p i)
