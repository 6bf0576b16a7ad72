-- ===== src/Sampling.antt =====
-- python/lsst/sims/utils/samplingFunctions.py: random points of a patch of the sphere. The state is
-- that of numpy's one generator.
pub mod Order
pub mod Range
use sims_utils.Base.{
  ℕ, String, Bool, true, not, ◌||◌, Option, none, some, List, map, str_eq, if◌then◌else◌,
}
use sims_utils.Base.Result.{or_raise}
use sims_utils.Base.Action.{Action, ◌>>=◌, ◌>>◌, modify, raise_when, evaluate, pure}
use sims_utils.Numpy.{Numpy}
use sims_utils.Astropy.{Astropy}
use sims_utils.Observation.State.{ObservationMetaData}
use sims_utils.Observation.Getters.{view}

-- `np.random.seed(s)` and `np.random.uniform(size=n)`
pub record Random (N : Numpy) : Type 1 where
  pub Generator : Type 0
  pub seeded : N.Object → Generator
  pub uniform : ℕ → Generator → List N.Object × Generator

-- `np.radians(None)`, and the `ValueError` of a patch that reaches a pole
pub data SamplingError : Type 0 where
  no_number around_pole : SamplingError

module _ (N : Numpy) where
  open N use {Object, literal, add, sub, mul, div, neg, lt, eq, pi, degrees, cos, arccos}

  -- `phivals` of one `u`, in radians; those that are not positive or zero gain a full turn.
  unfoldable pub swept : Object → Object → Object → Object
  swept phi delta u = add (mul (mul (literal "2.") delta) u) (sub phi delta)

  unfoldable pub wrapped : Object → Object
  wrapped x =
      if lt (literal "0.") x || eq (literal "0.") x then x else add x (mul (literal "2.") pi)

  -- `np.pi/2.0 - x`
  unfoldable pub from_pole : Object → Object
  from_pole x = sub (div pi (literal "2.0")) x

  -- `thetavals` of one `v`, in radians from the equator, with `thetamin` and `thetamax`
  unfoldable pub drawn_dec : Object → Object → Object → Object
  unfolding from_pole
  drawn_dec low high v = from_pole (arccos (add (mul (neg v) (sub (cos low) (cos high))) (cos low)))

  -- `thetamax > np.pi or thetamin < 0.`
  unfoldable pub reaches_pole : Object → Object → Bool
  reaches_pole low high = lt pi high || lt low (literal "0.")

module _ (N : Numpy) (R : Random N) where
  open N use {Object, add, sub, radians, degrees}
  open R use {Generator, seeded, uniform}

  abbrev pub Sampling : Type 0 → Type 0
  Sampling X = Action Generator SamplingError X

  -- `np.random.uniform(size=n)`
  unfoldable pub draw : ℕ → Sampling (List Object)
  draw n s = let (xs, s') = uniform n s in pure xs s'

  -- `np.radians(x)`; `None` raises
  unfoldable pub radians_given : Option Object → Sampling Object
  radians_given x = evaluate (λ _. or_raise x no_number) >>= λ v. pure (radians v)

  -- The part of `samplePatchOnSphere` after the draws, in radians
  unfoldable pub patch :
      Object → Object → Object → List Object → List Object → Sampling (List Object × List Object)
  unfolding swept wrapped from_pole drawn_dec reaches_pole
  patch phi theta delta u v = do
    let ra = map (λ x. wrapped N (swept N phi delta x)) u
    let high = add (from_pole N theta) delta
    let low = sub (from_pole N theta) delta
    raise_when (λ _. reaches_pole N low high) around_pole
    pure (map degrees ra, map degrees (map (drawn_dec N low high) v))

  unfoldable pub sample_patch_on_sphere :
      Option Object
      → Option Object
      → Option Object
      → ℕ
      → Object
      → Sampling (List Object × List Object)
  unfolding draw radians_given patch
  sample_patch_on_sphere phi theta delta size seed = do
    modify (λ _. seeded seed)
    u ← draw size
    v ← draw size
    phi_rad ← radians_given phi
    theta_rad ← radians_given theta
    delta_rad ← radians_given delta
    patch phi_rad theta_rad delta_rad u v

  -- Whether `spatiallySample_obsmetadata` warns, and what it does: the pointing and the length are
  -- read in degrees.
  unfoldable pub spatially_sample_obsmetadata :
      (A : Astropy N)
      → ObservationMetaData N A
      → ℕ
      → Object
      → Bool × Sampling (List Object × List Object)
  unfolding sample_patch_on_sphere
  spatially_sample_obsmetadata A o size seed =
      let w = view N A o in
      (
        elim w.shown_type [ some kind ↦ not (str_eq kind "box") | none ↦ true ],
        sample_patch_on_sphere w.shown_ra w.shown_dec w.shown_length size seed,
      )
