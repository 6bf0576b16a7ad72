-- ===== src/Compound/Turned.antt =====
-- The angle of the rotator, to the sky and back.
use sims_utils.Base.{◌≡◌, ◌∙◌, some}
use sims_utils.Base.Action.{>>=-ok, ◌>>=◌, pure}
use sims_utils.Base.Result.{ok}
use sims_utils.Numpy.{Numpy}
use sims_utils.Astropy.{Astropy}
use sims_utils.Palpy.{Palpy}
use sims_utils.Palpy.Places.{Places, IsElementwise}
use sims_utils.Mjd.{ModifiedJulianDate}
use sims_utils.Mjd.Reads.{Given, IsCoherent}
use sims_utils.Observation.State.{ObservationMetaData}
use sims_utils.Astrometry.Actions.{or_else, bad_shapes}
use sims_utils.Astrometry.Observed.{Maybe}
use sims_utils.Astrometry.Points.{Place, at_date}
use sims_utils.Compound.Angles.{Angles, each, each-each, between, between-each}
use sims_utils.Compound.Horizon.{alt_az_pa_from_ra_dec_radians}
use sims_utils.Compound.Rotator.{full_turn, get_rot_sky_pos_radians, get_rot_tel_pos_radians}
use sims_utils.Compound.Vantage.{Vantage, horizon_point}
use sims_utils.Compound.Seen.{alt_az_pa-eq}

-- What is true of angles modulo a full turn: a turn before a sum or a difference makes no
-- difference after it, and the two undo each other.
pub record IsCircle (N : Numpy) : Type 0 where
  pub turn_add : (x y : N.Object) → full_turn N (N.add (full_turn N x) y) ≡ full_turn N (N.add x y)
  pub turn_sub : (x y : N.Object) → full_turn N (N.sub (full_turn N x) y) ≡ full_turn N (N.sub x y)
  pub sub_add : (x y : N.Object) → N.add (N.sub x y) y ≡ x
  pub add_sub : (x y : N.Object) → N.sub (N.add x y) y ≡ x

module _ (N : Numpy) (A : Astropy N) (P : Places N) (Q : Palpy N) where
  open N use {Object}

  -- `_getRotTelPos` of what `_getRotSkyPos` gives, and the other way round
  unfoldable pub tel_of_sky :
      Angles Object → Angles Object → Angles Object → Maybe N A P (Angles Object)
  tel_of_sky ra dec rot =
      get_rot_sky_pos_radians N A P Q ra dec rot >>= get_rot_tel_pos_radians N A P Q ra dec

  unfoldable pub sky_of_tel :
      Angles Object → Angles Object → Angles Object → Maybe N A P (Angles Object)
  sky_of_tel ra dec rot =
      get_rot_tel_pos_radians N A P Q ra dec rot >>= get_rot_sky_pos_radians N A P Q ra dec

module _ (N : Numpy) (A : Astropy N) (P : Places N) (Q : Palpy N) (law : IsElementwise N P)
    (g : Given N A) (o : ObservationMetaData N A) (at : Vantage N A P Q g o) where
  open N use {Object, literal, add, sub, mod_, mul, pi}

  -- A place with an angle
  abbrev pub Turn : Type 0
  Turn = Place N A P × Object

  abbrev pub parallactic : Turn → Object
  parallactic t = (horizon_point N A P Q g o at t.0).2

  module _ (m : ModifiedJulianDate N A) (ts : Angles Turn) (h : IsCoherent N A g m) where
    horizon-each :
        (m' : ModifiedJulianDate N A) × (alt_az_pa_from_ra_dec_radians N A P Q
            (each (λ t. t.0.0) ts)
            (each (λ t. t.0.1) ts)
            (some (at_date N A P o m))
          ≡ (
            ok (
              each (λ t. (horizon_point N A P Q g o at t.0).0) ts,
              each (λ t. (horizon_point N A P Q g o at t.0).1) ts,
              each parallactic ts,
            ),
            some (at_date N A P o m'),
          ))
        × IsCoherent N A g m'
    horizon-each =
        let (m', e, h') = alt_az_pa-eq N A P Q law g o at m (each (λ t. t.0) ts) h in
        (m', (simp each-each at e), h')

    pub get_rot_sky_pos-eq :
        (m' : ModifiedJulianDate N A) × (get_rot_sky_pos_radians N A P Q
            (each (λ t. t.0.0) ts)
            (each (λ t. t.0.1) ts)
            (each (λ t. t.1) ts)
            (some (at_date N A P o m))
          ≡ (ok (each (λ t. full_turn N (sub t.1 (parallactic t))) ts), some (at_date N A P o m')))
        × IsCoherent N A g m'
    unfolding get_rot_sky_pos_radians
    get_rot_sky_pos-eq =
        let (m', e, h') = horizon-each in
        (
          m',
          >>=-ok
                (alt_az_pa_from_ra_dec_radians N A P Q (each (λ t. t.0.0) ts)
                  (each (λ t. t.0.1) ts))
                (λ z. or_else bad_shapes (between sub (each (λ t. t.1) ts) z.2) >>= λ r.
                  pure (each (full_turn N) r))
                (some (at_date N A P o m)) e
              ∙ simp (between-each, each-each),
          h',
        )

    pub get_rot_tel_pos-eq :
        (m' : ModifiedJulianDate N A) × (get_rot_tel_pos_radians N A P Q
            (each (λ t. t.0.0) ts)
            (each (λ t. t.0.1) ts)
            (each (λ t. t.1) ts)
            (some (at_date N A P o m))
          ≡ (ok (each (λ t. full_turn N (add t.1 (parallactic t))) ts), some (at_date N A P o m')))
        × IsCoherent N A g m'
    unfolding get_rot_tel_pos_radians
    get_rot_tel_pos-eq =
        let (m', e, h') = horizon-each in
        (
          m',
          >>=-ok
                (alt_az_pa_from_ra_dec_radians N A P Q (each (λ t. t.0.0) ts)
                  (each (λ t. t.0.1) ts))
                (λ z. or_else bad_shapes (between add (each (λ t. t.1) ts) z.2) >>= λ r.
                  pure (each (full_turn N) r))
                (some (at_date N A P o m)) e
              ∙ simp (between-each, each-each),
          h',
        )

  tel_of_sky-eq :
      (m : ModifiedJulianDate N A) (ts : Angles Turn)
      → IsCircle N
      → IsCoherent N A g m
      → (m' : ModifiedJulianDate N A) × (tel_of_sky N A P Q
            (each (λ t. t.0.0) ts)
            (each (λ t. t.0.1) ts)
            (each (λ t. t.1) ts)
            (some (at_date N A P o m))
          ≡ (ok (each (λ t. full_turn N t.1) ts), some (at_date N A P o m')))
        × IsCoherent N A g m'
  unfolding tel_of_sky
  tel_of_sky-eq m ts circle h =
      let (m', e, h') = get_rot_sky_pos-eq m ts h in
      let turn : Turn → Turn = λ t. (t.0, full_turn N (sub t.1 (parallactic t))) in
      let (m'', e', h'') = get_rot_tel_pos-eq m' (each turn ts) h' in
      (
        m'',
        >>=-ok
              (get_rot_sky_pos_radians N A P Q (each (λ t. t.0.0) ts) (each (λ t. t.0.1) ts)
                (each (λ t. t.1) ts))
              (get_rot_tel_pos_radians N A P Q (each (λ t. t.0.0) ts) (each (λ t. t.0.1) ts))
              (some (at_date N A P o m)) e
            ∙ (simp (each-each, circle.turn_add, circle.sub_add) at e'),
        h'',
      )

  sky_of_tel-eq :
      (m : ModifiedJulianDate N A) (ts : Angles Turn)
      → IsCircle N
      → IsCoherent N A g m
      → (m' : ModifiedJulianDate N A) × (sky_of_tel N A P Q
            (each (λ t. t.0.0) ts)
            (each (λ t. t.0.1) ts)
            (each (λ t. t.1) ts)
            (some (at_date N A P o m))
          ≡ (ok (each (λ t. full_turn N t.1) ts), some (at_date N A P o m')))
        × IsCoherent N A g m'
  unfolding sky_of_tel
  sky_of_tel-eq m ts circle h =
      let (m', e, h') = get_rot_tel_pos-eq m ts h in
      let turn : Turn → Turn = λ t. (t.0, full_turn N (add t.1 (parallactic t))) in
      let (m'', e', h'') = get_rot_sky_pos-eq m' (each turn ts) h' in
      (
        m'',
        >>=-ok
              (get_rot_tel_pos_radians N A P Q (each (λ t. t.0.0) ts) (each (λ t. t.0.1) ts)
                (each (λ t. t.1) ts))
              (get_rot_sky_pos_radians N A P Q (each (λ t. t.0.0) ts) (each (λ t. t.0.1) ts))
              (some (at_date N A P o m)) e
            ∙ (simp (each-each, circle.turn_sub, circle.add_sub) at e'),
        h'',
      )

  -- In arithmetic where a turn may be taken before or after a sum, and sums and differences undo
  -- each other, and for an observation whose site is there with its longitude and latitude, and
  -- whose parameters and sidereal times palpy computes: for two numbers or two columns of
  -- places, with an angle each, _getRotTelPos undoes _getRotSkyPos and _getRotSkyPos undoes
  -- _getRotTelPos, up to full turns, each called on the observation as the other left it. The
  -- observation only gains what its date keeps.
  pub rotator_and_back :
      (m : ModifiedJulianDate N A) (ts : Angles Turn)
      → IsCircle N
      → IsCoherent N A g m
      → ((m' : ModifiedJulianDate N A) × (tel_of_sky N A P Q
              (each (λ t. t.0.0) ts)
              (each (λ t. t.0.1) ts)
              (each (λ t. t.1) ts)
              (some (at_date N A P o m))
            ≡ (ok (each (λ t. full_turn N t.1) ts), some (at_date N A P o m')))
          × IsCoherent N A g m')
        × (m' : ModifiedJulianDate N A) × (sky_of_tel N A P Q
              (each (λ t. t.0.0) ts)
              (each (λ t. t.0.1) ts)
              (each (λ t. t.1) ts)
              (some (at_date N A P o m))
            ≡ (ok (each (λ t. full_turn N t.1) ts), some (at_date N A P o m')))
        × IsCoherent N A g m'
  rotator_and_back m ts circle h =
      let (m', e, h') = sky_of_tel-eq m ts circle h in (tel_of_sky-eq m ts circle h, m', e, h')
