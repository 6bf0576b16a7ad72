-- ===== src/Base/Action.antt =====
-- A method call on a mutable object: it may raise, and what was written before a raise stays.
use mathlib.Core.Bool.{Bool, true, false}
use mathlib.Core.Path.{◌≡◌, ap}
use native.Mathlib.Omega.{arith}
use sims_utils.Base.Result.{Result, ok, err}

abbrev pub Action : Type 0 → Type 0 → Type 0 → Type 0
Action S E A = S → Result E A × S

infixl 5 ◌>>=◌ ◌>>◌
abbrev pub ◌>>=◌ : {S E A B : Type 0} → Action S E A → (A → Action S E B) → Action S E B
◌>>=◌ m f s = let (r, s') = m s in elim r [ ok a ↦ f a s' | err e ↦ (err e, s') ]

abbrev pub ◌>>◌ : {S E A B : Type 0} → Action S E A → Action S E B → Action S E B
m >> k = m >>= λ _. k

module _ {S E : Type 0} where
  abbrev pub pure : {A : Type 0} → A → Action S E A
  pure a s = (ok a, s)

  abbrev pub modify : (S → S) → Action S E (Unit {0})
  modify f s = (ok tt, f s)

  -- `if c: raise e`, the test read from the object
  abbrev pub raise_when : (S → Bool) → E → Action S E (Unit {0})
  raise_when c e s = elim (c s) [ true ↦ (err e, s) | false ↦ (ok tt, s) ]

  -- an expression over the object that may raise
  abbrev pub evaluate : {A : Type 0} → (S → Result E A) → Action S E A
  evaluate f s = (f s, s)

  -- Where `m` begins in a state of `P` and does not raise, it ends in a state of `Q`.
  abbrev pub Triple : (S → Type 0) → Action S E (Unit {0}) → (S → Type 0) → Type 0
  Triple P m Q = (s : S) → P s → (m s).0 ≡ ok tt → Q (m s).1

  pub >>-Triple :
      (P Q R : S → Type 0) (m k : Action S E (Unit {0}))
      → Triple P m Q
      → Triple Q k R
      → Triple P (m >> k) R
  >>-Triple P Q R m k first then_ s h e = ground (arith, first s h, then_ (m s).1)

  -- A chain whose first step does not raise goes on with what that step gives.
  pub >>=-ok :
      {A B : Type 0} (m : Action S E A) (f : A → Action S E B) (s : S) {s' : S} {a : A}
      → m s ≡ (ok a, s')
      → (m >>= f) s ≡ f a s'
  >>=-ok m f s e = ap (λ p. elim p.0 [ ok a ↦ f a p.1 | err e ↦ (err e, p.1) ]) e

  pub >>=-err :
      {A B : Type 0} (m : Action S E A) (f : A → Action S E B) (s : S) {s' : S} {e : E}
      → m s ≡ (err e, s')
      → (m >>= f) s ≡ (err e, s')
  >>=-err m f s e = ap (λ p. elim p.0 [ ok a ↦ f a p.1 | err e ↦ (err e, p.1) ]) e
