-- ===== src/Action/Keeps.antt =====
-- Calls after which the state still satisfies a property, however they end.
use app_elfloader.Prelude.{◌≡◌, refl, Bool, true, false, if◌then◌else◌}
use app_elfloader.Outcome.{Outcome, ok, err, panic}
use app_elfloader.Err.{Error}
use app_elfloader.Action.{
  Action, lift, bind_from, or_else, or_else_from, after_cleanup, ignore, ignore_from, ◌>>=◌,
}

abbrev pub Keeps {ℓ κ μ} : {S : Type ℓ} {A : Type κ} → (S → Type μ) → Action S A → Type (ℓ ⊔ μ)
Keeps {S = S} I m = (s : S) → I s → I (m s).1

module _ {ℓ κ μ} {S : Type ℓ} {A : Type κ} (I : S → Type μ) where
  pub Keeps-lift : (o : Outcome Error A) → Keeps I (lift o)
  unfolding lift
  Keeps-lift o s h = h

  pub Keeps-if :
      (b : Bool) (m n : Action S A)
      → (b ≡ true → Keeps I m)
      → (b ≡ false → Keeps I n)
      → Keeps I (if b then m else n)
  Keeps-if true m n k l = k refl
  Keeps-if false m n k l = l refl

  pub Keeps-or_else :
      (m : Action S A) (cleanup : Action S (Unit {0}))
      → Keeps I m
      → Keeps I cleanup
      → Keeps I (or_else m cleanup)
  unfolding or_else
  Keeps-or_else m cleanup k l s h = from (m s) (k s h)
    where
      cleaned :
          (e : Error) (r : Outcome Error (Unit {0}) × S) → I r.1 → I (after_cleanup {A = A} e r).1
      cleaned e (ok a, t) i = i
      cleaned e (err x, t) i = i
      cleaned e (panic, t) i = i

      from : (r : Outcome Error A × S) → I r.1 → I (or_else_from r cleanup).1
      from (ok a, t) i = i
      from (err e, t) i = cleaned e (cleanup t) (l t i)
      from (panic, t) i = i

  pub Keeps-ignore : (m : Action S A) → Keeps I m → Keeps I (ignore m)
  unfolding ignore
  Keeps-ignore m k s h = from (m s) (k s h)
    where
      from : (r : Outcome Error A × S) → I r.1 → I (ignore_from r).1
      from (ok a, t) i = i
      from (err e, t) i = i
      from (panic, t) i = i

module _ {ℓ κ η μ} {S : Type ℓ} {A : Type κ} {B : Type η} (I : S → Type μ) where
  pub Keeps-bind :
      (m : Action S A) (f : A → Action S B)
      → Keeps I m
      → ((a : A) → Keeps I (f a))
      → Keeps I (m >>= f)
  unfolding ◌>>=◌
  Keeps-bind m f k l s h = from (m s) (k s h)
    where
      from : (r : Outcome Error A × S) → I r.1 → I (bind_from r f).1
      from (ok a, t) i = l a t i
      from (err e, t) i = i
      from (panic, t) i = i

  -- The step before did not touch the state.
  pub Keeps-pure :
      (o : Outcome Error A) (f : A → Action S B)
      → ((a : A) → o ≡ ok a → Keeps I (f a))
      → Keeps I (lift o >>= f)
  unfolding ◌>>=◌
  Keeps-pure (ok a) f l s h = l a refl s h
  Keeps-pure (err e) f l s h = h
  Keeps-pure panic f l s h = h
