-- ===== src/Observation/Invariant/Rules.antt =====
-- How a property of the state is carried through the constructor and through sequences of setters.
use sims_utils.Base.{◌≡◌, subst, List, [], ◌∷◌, arith}
use sims_utils.Base.Result.{ok}
use sims_utils.Base.Action.{◌>>◌, Triple, >>-Triple}
use sims_utils.Numpy.{Numpy}
use sims_utils.Astropy.{Astropy}
use sims_utils.Observation.State.{ObservationMetaData, ObservationArgs}
use sims_utils.Observation.Methods.{
  initial, initial_arguments, initial_m5_and_seeing, build_missing_bounds, initialise,
  observation_meta_data,
}
use sims_utils.Observation.Steps.{Setter, apply, apply_all}

module _ (N : Numpy) (A : Astropy N) where
  abbrev pub Property : Type 1
  Property = ObservationMetaData N A → Type 0

  pub apply_all-Triple :
      (P : Property)
      → ((c : Setter N A) → Triple P (apply N A c) P)
      → (cs : List (Setter N A)) → Triple P (apply_all N A cs) P
  unfolding apply_all
  apply_all-Triple P keep [] o h e = h
  apply_all-Triple P keep (c ∷ cs) o h e =
      >>-Triple P P P (apply N A c) (apply_all N A cs) (keep c) (apply_all-Triple P keep cs) o h e

  built :
      (a : ObservationArgs N A) {o : ObservationMetaData N A}
      → observation_meta_data N A a ≡ ok o
      → ((initialise N A a (initial N A a)).0 ≡ ok tt) × ((initialise N A a (initial N A a)).1 ≡ o)
  unfolding observation_meta_data
  built a e = ground arith

  initialise-Triple :
      (P Q R S : Property) (a : ObservationArgs N A)
      → Triple P (initial_arguments N A a) Q
      → Triple Q (initial_m5_and_seeing N A a.m5 a.seeing) R
      → Triple R (build_missing_bounds N A) S
      → Triple P (initialise N A a) S
  initialise-Triple P Q R S a first second third =
      let rest = initial_m5_and_seeing N A a.m5 a.seeing >> build_missing_bounds N A in
      unfold initialise in
      >>-Triple P Q S (initial_arguments N A a) rest first (
        >>-Triple Q R S (initial_m5_and_seeing N A a.m5 a.seeing) (build_missing_bounds N A) second
          third)

  -- The three parts of `__init__` one after the other.
  pub constructed :
      (P Q R S : Property) (a : ObservationArgs N A) {o : ObservationMetaData N A}
      → Triple P (initial_arguments N A a) Q
      → Triple Q (initial_m5_and_seeing N A a.m5 a.seeing) R
      → Triple R (build_missing_bounds N A) S
      → P (initial N A a)
      → observation_meta_data N A a ≡ ok o
      → S o
  constructed P Q R S a first second third h e =
      let (done, same) = built a e in
      subst S same (initialise-Triple P Q R S a first second third (initial N A a) h done)
