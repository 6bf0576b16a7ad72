-- ===== src/Base/Frame.antt =====
-- What an action may do to its object, on every path, those that raise included.
use mathlib.Core.Path.{◌≡◌, refl, sym, ap, subst}
use mathlib.Core.Bool.{Bool, true, false}
use mathlib.Core.Logic.{inl, inr}
use sims_utils.Base.Result.{Result, Result-cases}
use sims_utils.Base.Action.{Action, ◌>>=◌, raise_when, evaluate, pure, >>=-ok, >>=-err}

-- A change that may be made to an object, from objects where it starts to objects where another
-- may follow.
pub record Frame (S : Type 0) : Type 1 where
  pub Starts : S → Type 0
  pub Changes : S → S → Type 0
  pub nothing : (s : S) → Starts s → Changes s s
  pub follows : (s s' : S) → Changes s s' → Starts s'
  pub both : (s s' s'' : S) → Changes s s' → Changes s' s'' → Changes s s''

module _ {S E : Type 0} (F : Frame S) where
  pub record IsSafe {X : Type 0} (m : Action S E X) : Type 0 where
    pub frame : (s : S) → F.Starts s → F.Changes s (m s).1

  pub evaluate-IsSafe : {X : Type 0} (r : S → Result E X) → IsSafe (evaluate r)
  evaluate-IsSafe r = record { frame = λ s h. F.nothing s h }

  pub pure-IsSafe : {X : Type 0} (x : X) → IsSafe (pure x)
  pure-IsSafe x = record { frame = λ s h. F.nothing s h }

  raise_when-state : (b : Bool) (e : E) (s : S) → (raise_when (λ _. b) e s).1 ≡ s
  raise_when-state true e s = refl
  raise_when-state false e s = refl

  pub raise_when-IsSafe : (c : S → Bool) (e : E) → IsSafe (raise_when c e)
  raise_when-IsSafe c e = record {
    frame = λ s h. subst (F.Changes s) (sym (raise_when-state (c s) e s)) (F.nothing s h);
  }

  pub >>=-IsSafe :
      {X Y : Type 0} (m : Action S E X) (f : X → Action S E Y)
      → IsSafe m
      → ((x : X) → IsSafe (f x))
      → IsSafe (m >>= f)
  >>=-IsSafe m f first then_ = record {
    frame = λ s h.
        let change = first.frame s h in
        elim (Result-cases (m s).0) [
          | inl (x, e) ↦
              subst (λ r. F.Changes s r.1)
                (sym (>>=-ok m f s {s' = (m s).1} (ap (λ r. (r, (m s).1)) e)))
                (F.both s (m s).1 (f x (m s).1).1 change
                  ((then_ x).frame (m s).1 (F.follows s (m s).1 change)))
          | inr (x, e) ↦
              subst (λ r. F.Changes s r.1)
                (sym (>>=-err m f s {s' = (m s).1} (ap (λ r. (r, (m s).1)) e))) change
        ];
  }
