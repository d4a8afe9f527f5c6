-- ===== src/Action.antt =====
-- Calls that change the state of the system: a function from the state to an outcome and the state
-- after it. The state comes back after an error too, since what was done stays done.
pub mod Keeps
use app_elfloader.Prelude.{
  ◌≡◌, ◌≢◌, refl, sym, ap, ◌∙◌, subst, Bool, true, false, if◌then◌else◌, Bool-cases, inl, inr,
}
use app_elfloader.Outcome.{Outcome, ok, err, panic, Safe, returns, fails}
use app_elfloader.Err.{Error}

abbrev pub Action {ℓ κ} : Type ℓ → Type κ → Type (ℓ ⊔ κ)
Action S A = S → Outcome Error A × S

module _ {ℓ κ} {S : Type ℓ} {A : Type κ} where
  -- A computation that does not touch the state.
  unfoldable pub lift : Outcome Error A → Action S A
  lift o s = (o, s)

  -- What `bind` makes of the outcome.
  abbrev bind_from {μ} : {B : Type μ} → Outcome Error A × S → (A → Action S B) → Outcome Error B × S
  bind_from (ok a, s) f = f a s
  bind_from (err e, s) f = (err e, s)
  bind_from (panic, s) f = (panic, s)

  -- The error of a call, once the cleanup is done.
  abbrev after_cleanup : Error → Outcome Error (Unit {0}) × S → Outcome Error A × S
  after_cleanup e (ok _, s) = (err e, s)
  after_cleanup e (err _, s) = (err e, s)
  after_cleanup e (panic, s) = (panic, s)

  abbrev or_else_from : Outcome Error A × S → Action S (Unit {0}) → Outcome Error A × S
  or_else_from (ok a, s) cleanup = (ok a, s)
  or_else_from (err e, s) cleanup = after_cleanup e (cleanup s)
  or_else_from (panic, s) cleanup = (panic, s)

  -- `if let Err(e) = m { cleanup; return Err(e); }`
  unfoldable pub or_else : Action S A → Action S (Unit {0}) → Action S A
  or_else m cleanup s = or_else_from (m s) cleanup

  -- `let _ = m;`: an error is dropped, a panic is not.
  abbrev ignore_from : Outcome Error A × S → Outcome Error (Unit {0}) × S
  ignore_from (ok a, s) = (ok tt, s)
  ignore_from (err e, s) = (ok tt, s)
  ignore_from (panic, s) = (panic, s)

  unfoldable pub ignore : Action S A → Action S (Unit {0})
  ignore m s = ignore_from (m s)

infixl 5 ◌>>=◌ ◌>>◌
-- Opening this opens the functions above.
unfoldable pub ◌>>=◌ {ℓ κ μ} :
    {S : Type ℓ} {A : Type κ} {B : Type μ} → Action S A → (A → Action S B) → Action S B
unfolding lift or_else ignore
◌>>=◌ m f s = bind_from (m s) f

abbrev pub ◌>>◌ {ℓ μ} : {S : Type ℓ} {B : Type μ} → Action S (Unit {0}) → Action S B → Action S B
m >> k = m >>= λ _. k

-- A state change that returns nothing.
unfoldable pub modify {ℓ} : {S : Type ℓ} → (S → S) → Action S (Unit {0})
modify f s = (ok tt, f s)

-- No panic: a value and its state satisfy `P`, an error and its state `Q`.
pub data Post {ℓ κ μ} {S : Type ℓ} {A : Type κ} (P : A → S → Type μ) (Q : Error → S → Type μ)
    : Outcome Error A × S → Type (ℓ ⊔ κ ⊔ μ) where
  returned : {a : A} {s : S} → P a s → Post P Q (ok a, s)
  failed : {e : Error} {s : S} → Q e s → Post P Q (err e, s)

abbrev PostAt {ℓ κ μ} :
    {S : Type ℓ} {A : Type κ}
    → (A → S → Type μ)
    → (Error → S → Type μ)
    → Outcome Error A × S
    → Type μ
PostAt P Q (ok a, s) = P a s
PostAt P Q (err e, s) = Q e s
PostAt P Q (panic, s) = ⊥ × Unit {μ}

module _ {ℓ κ μ} {S : Type ℓ} {A : Type κ} {P : A → S → Type μ} {Q : Error → S → Type μ} where
  Post-PostAt : {r : Outcome Error A × S} → Post P Q r → PostAt P Q r
  Post-PostAt (returned p) = p
  Post-PostAt (failed q) = q

  pub Post-intro : (r : Outcome Error A × S) → PostAt P Q r → Post P Q r
  Post-intro (ok a, s) p = returned p
  Post-intro (err e, s) q = failed q
  Post-intro (panic, s) q = absurd q.0

  pub Post-ok : {r : Outcome Error A × S} → Post P Q r → (a : A) (s : S) → r ≡ (ok a, s) → P a s
  Post-ok p a s e = subst (PostAt P Q) e (Post-PostAt p)

  pub Post-err :
      {r : Outcome Error A × S} → Post P Q r → (e : Error) (s : S) → r ≡ (err e, s) → Q e s
  Post-err p x s e = subst (PostAt P Q) e (Post-PostAt p)

  pub Post-ne_panic : {r : Outcome Error A × S} → Post P Q r → r.0 ≢ panic
  Post-ne_panic (returned p) e = cc
  Post-ne_panic (failed q) e = cc

  pub Post-lift :
      {o : Outcome Error A} (s : S)
      → Safe (λ a. P a s) o
      → ((e : Error) → Q e s)
      → Post P Q (lift o s)
  unfolding lift
  Post-lift s (returns p) q = returned p
  Post-lift s (fails {e}) q = failed (q e)

  pub Post-done : (a : A) (s : S) → P a s → Post P Q (lift (ok a) s)
  unfolding lift
  Post-done a s p = returned p

  pub Post-fail : (e : Error) (s : S) → Q e s → Post P Q (lift (err e) s)
  unfolding lift
  Post-fail e s q = failed q

  pub Post-if :
      (b : Bool) (m n : Action S A) (s : S)
      → (b ≡ true → Post P Q (m s))
      → (b ≡ false → Post P Q (n s))
      → Post P Q ((if b then m else n) s)
  Post-if true m n s p q = p refl
  Post-if false m n s p q = q refl

module _ {ℓ κ μ μ'} {S : Type ℓ} {A : Type κ} {P : A → S → Type μ} {Q : Error → S → Type μ}
    {P' : A → S → Type μ'} {Q' : Error → S → Type μ'} where
  pub Post-map :
      {r : Outcome Error A × S}
      → Post P Q r
      → ((a : A) (s : S) → P a s → P' a s)
      → ((e : Error) (s : S) → Q e s → Q' e s)
      → Post P' Q' r
  Post-map (returned p) f g = returned (f _ _ p)
  Post-map (failed q) f g = failed (g _ _ q)

  pub Post-or_else :
      (m : Action S A) (cleanup : Action S (Unit {0})) (s : S)
      → Post P Q (m s)
      → ((a : A) (s' : S) → P a s' → P' a s')
      → ((e : Error) (s' : S) → Q e s' → Post (λ _ t. Q' e t) (λ _ t. Q' e t) (cleanup s'))
      → Post P' Q' (or_else m cleanup s)
  unfolding or_else
  Post-or_else m cleanup s p f g = from (m s) p
    where
      cleaned :
          (e : Error) (r : Outcome Error (Unit {0}) × S)
          → Post (λ _ t. Q' e t) (λ _ t. Q' e t) r
          → Post P' Q' (after_cleanup e r)
      cleaned e r (returned q) = failed q
      cleaned e r (failed q) = failed q

      from : (r : Outcome Error A × S) → Post P Q r → Post P' Q' (or_else_from r cleanup)
      from r (returned {a} {s} h) = returned (f a s h)
      from r (failed {e} {s} h) = cleaned e (cleanup s) (g e s h)

module _ {ℓ κ μ} {S : Type ℓ} {A : Type κ} {P : A → S → Type μ} {Q : Error → S → Type μ}
    {R : S → Type μ} where
  pub Post-ignore :
      (m : Action S A) (s : S)
      → Post P Q (m s)
      → ((a : A) (s' : S) → P a s' → R s')
      → ((e : Error) (s' : S) → Q e s' → R s')
      → {Q' : Error → S → Type μ} → Post (λ _ t. R t) Q' (ignore m s)
  unfolding ignore
  Post-ignore m s p f g {Q'} = from (m s) p
    where
      from : (r : Outcome Error A × S) → Post P Q r → Post (λ _ t. R t) Q' (ignore_from r)
      from r (returned {a} {s} h) = returned (f a s h)
      from r (failed {e} {s} h) = returned (g e s h)

pub Post-bind {ℓ κ η μ μ'} :
    {S : Type ℓ} {A : Type κ} {B : Type η} {P : A → S → Type μ} {Q : Error → S → Type μ}
    {P' : B → S → Type μ'} {Q' : Error → S → Type μ'} (m : Action S A) (f : A → Action S B) (s : S)
    → Post P Q (m s)
    → ((a : A) (s' : S) → P a s' → Post P' Q' (f a s'))
    → ((e : Error) (s' : S) → Q e s' → Q' e s')
    → Post P' Q' ((m >>= f) s)
unfolding ◌>>=◌
Post-bind {S = S} {A} {P = P} {Q} {P'} {Q'} m f s p k g = from (m s) p
  where
    from : (r : Outcome Error A × S) → Post P Q r → Post P' Q' (bind_from r f)
    from r (returned {a} {s} h) = k a s h
    from r (failed {e} {s} h) = failed (g e s h)

-- A step that does not touch the state, and fails with it unchanged.
pub Post-pure {ℓ κ η μ μ'} :
    {S : Type ℓ} {A : Type κ} {B : Type η} {P : A → Type μ} {P' : B → S → Type μ'}
    {Q' : Error → S → Type μ'} (o : Outcome Error A) (f : A → Action S B) (s : S)
    → Safe P o
    → ((a : A) → P a → Post P' Q' (f a s))
    → ((e : Error) → Q' e s)
    → Post P' Q' ((lift o >>= f) s)
unfolding ◌>>=◌
Post-pure o f s (returns {a} p) k g = k a p
Post-pure o f s (fails {e}) k g = failed (g e)

-- The same with the value known.
pub Post-pure_is {ℓ κ η μ'} :
    {S : Type ℓ} {A : Type κ} {B : Type η} {P' : B → S → Type μ'} {Q' : Error → S → Type μ'}
    (o : Outcome Error A) (f : A → Action S B) (s : S) {c : A}
    → Safe (λ a. a ≡ c) o
    → Post P' Q' (f c s)
    → ((e : Error) → Q' e s)
    → Post P' Q' ((lift o >>= f) s)
Post-pure_is {P' = P'} {Q'} o f s {c} p k g =
    Post-pure o f s p (λ a e. subst (λ x. Post P' Q' (f x s)) (sym e) k) g

-- The same with the equation of the value.
pub Post-pure_eq {ℓ κ η μ μ'} :
    {S : Type ℓ} {A : Type κ} {B : Type η} {P : A → Type μ} {P' : B → S → Type μ'}
    {Q' : Error → S → Type μ'} (o : Outcome Error A) (f : A → Action S B) (s : S)
    → Safe P o
    → ((a : A) → o ≡ ok a → P a → Post P' Q' (f a s))
    → ((e : Error) → Q' e s)
    → Post P' Q' ((lift o >>= f) s)
unfolding ◌>>=◌
Post-pure_eq o f s (returns {a} p) k g = k a refl p
Post-pure_eq o f s (fails {e}) k g = failed (g e)

-- A step that does not touch the state, once its outcome is known.
module _ {ℓ κ η} {S : Type ℓ} {A : Type κ} {B : Type η} where
  pub lift_known :
      {o : Outcome Error A} {a : A} (f : A → Action S B) (s : S)
      → o ≡ ok a
      → (lift o >>= f) s ≡ f a s
  unfolding ◌>>=◌
  lift_known f s e = ap (λ o. bind_from (o, s) f) e

  pub lift_error :
      {o : Outcome Error A} {x : Error} (f : A → Action S B) (s : S)
      → o ≡ err x
      → (lift o >>= f) s ≡ (err x, s)
  unfolding ◌>>=◌
  lift_error f s e = ap (λ o. bind_from (o, s) f) e

  -- The same for one that does.
  pub bind_known :
      (m : Action S A) {a : A} {s s1 : S} (f : A → Action S B)
      → m s ≡ (ok a, s1)
      → (m >>= f) s ≡ f a s1
  unfolding ◌>>=◌
  bind_known m f e = ap (λ r. bind_from r f) e

  pub bind_error :
      (m : Action S A) {x : Error} {s s1 : S} (f : A → Action S B)
      → m s ≡ (err x, s1)
      → (m >>= f) s ≡ (err x, s1)
  unfolding ◌>>=◌
  bind_error m f e = ap (λ r. bind_from r f) e

pub ignore_known {ℓ κ} :
    {S : Type ℓ} {A : Type κ} (m : Action S A) {a : A} {s s1 : S}
    → m s ≡ (ok a, s1)
    → ignore m s ≡ (ok tt, s1)
unfolding ignore
ignore_known m e = ap ignore_from e
