-- ===== src/Outcome.antt =====
-- Results of Rust functions: `Ok`, `Err`, or a panic, which aborts the unikernel (rust/Cargo.toml
-- sets `panic = "abort"` and `overflow-checks = true`).
use app_elfloader.Prelude.{
  ◌≡◌, ◌≢◌, refl, Bool, true, false, Option, none, some, if◌then◌else◌, List, [], ◌∷◌, ℕ, zero, suc,
  get_elem?, ◌<◌, length, subst, sym, ap, ◌∙◌, arith,
}

pub data Outcome {ℓ κ} (E : Type ℓ) (A : Type κ) : Type (ℓ ⊔ κ) where
  ok : A → Outcome E A
  err : E → Outcome E A
  panic : Outcome E A

-- `if b { return Err(e); }`
unfoldable pub reject_if {ℓ} : {E : Type ℓ} → Bool → E → Outcome E (Unit {0})
reject_if true e = err e
reject_if false e = ok tt

-- `Option::ok_or`
unfoldable pub ok_or {ℓ κ} : {E : Type ℓ} {A : Type κ} → Option A → E → Outcome E A
ok_or none e = err e
ok_or (some a) e = ok a

-- `Result::map_err`
unfoldable pub map_err {ℓ κ μ} :
    {E : Type ℓ} {F : Type κ} {A : Type μ} → Outcome E A → (E → F) → Outcome F A
map_err (ok a) f = ok a
map_err (err e) f = err (f e)
map_err panic f = panic

-- `xs[i]`
unfoldable pub index {ℓ κ} : {E : Type ℓ} {A : Type κ} → List A → ℕ → Outcome E A
index xs i = elim (get_elem? xs i) [ none ↦ panic | some x ↦ ok x ]

infixl 5 ◌>>=◌ ◌>>◌
-- Opening this opens the functions above.
unfoldable pub ◌>>=◌ {ℓ κ μ} :
    {E : Type ℓ} {A : Type κ} {B : Type μ} → Outcome E A → (A → Outcome E B) → Outcome E B
unfolding reject_if ok_or map_err index
ok a >>= f = f a
err e >>= f = err e
panic >>= f = panic

abbrev pub ◌>>◌ {ℓ μ} : {E : Type ℓ} {B : Type μ} → Outcome E (Unit {0}) → Outcome E B → Outcome E B
m >> k = m >>= λ _. k

-- The outcome is no panic, and a value that it returns satisfies `P`.
pub data Safe {ℓ κ μ} {E : Type ℓ} {A : Type κ} (P : A → Type μ)
    : Outcome E A → Type (ℓ ⊔ κ ⊔ μ) where
  returns : {a : A} → P a → Safe P (ok a)
  fails : {e : E} → Safe P (err e)

abbrev HoldsAt {ℓ κ μ} : {E : Type ℓ} {A : Type κ} → (A → Type μ) → Outcome E A → Type μ
HoldsAt P (ok a) = P a
HoldsAt P (err e) = Unit
HoldsAt P panic = Unit

abbrev IsResult {ℓ κ} : {E : Type ℓ} {A : Type κ} → Outcome E A → Type 0
IsResult (ok a) = Unit
IsResult (err e) = Unit
IsResult panic = ⊥

module _ {ℓ κ μ} {E : Type ℓ} {A : Type κ} {P : A → Type μ} where
  Safe-HoldsAt : {o : Outcome E A} → Safe P o → HoldsAt P o
  Safe-HoldsAt (returns p) = p
  Safe-HoldsAt fails = tt

  Safe-IsResult : {o : Outcome E A} → Safe P o → IsResult o
  Safe-IsResult (returns p) = tt
  Safe-IsResult fails = tt

  pub Safe-ok : {o : Outcome E A} {a : A} → Safe P o → o ≡ ok a → P a
  Safe-ok s e = subst (HoldsAt P) e (Safe-HoldsAt s)

  pub Safe-ne_panic : {o : Outcome E A} → Safe P o → o ≢ panic
  Safe-ne_panic s e = subst IsResult e (Safe-IsResult s)

  pub Safe-intro : (o : Outcome E A) → o ≢ panic → ((a : A) → o ≡ ok a → P a) → Safe P o
  Safe-intro (ok a) n p = returns (p a refl)
  Safe-intro (err e) n p = fails
  Safe-intro panic n p = absurd (n refl)

  pub Safe-ok_or : (o : Option A) (e : E) → ((a : A) → o ≡ some a → P a) → Safe P (ok_or o e)
  unfolding ok_or
  Safe-ok_or none e p = fails
  Safe-ok_or (some a) e p = returns (p a refl)

  pub Safe-if :
      (b : Bool) (m n : Outcome E A)
      → (b ≡ true → Safe P m)
      → (b ≡ false → Safe P n)
      → Safe P (if b then m else n)
  Safe-if true m n p q = p refl
  Safe-if false m n p q = q refl

  pub Safe-index :
      (xs : List A) (i : ℕ)
      → i < length xs
      → ((x : A) → get_elem? xs i ≡ some x → P x)
      → Safe {E = E} P (index xs i)
  unfolding index
  Safe-index [] i h p = elim h [ ]
  Safe-index (x ∷ xs) zero h p = returns (p x refl)
  Safe-index (x ∷ xs) (suc i) h p = Safe-index xs i (omega arith) p

  pub Safe-map_err {η} :
      {F : Type η} (o : Outcome F A) (f : F → E) → Safe P o → Safe P (map_err o f)
  unfolding map_err
  Safe-map_err o f (returns p) = returns p
  Safe-map_err o f fails = fails

pub Safe-reject_if {ℓ} : {E : Type ℓ} (b : Bool) (e : E) → Safe (λ _. b ≡ false) (reject_if b e)
unfolding reject_if
Safe-reject_if true e = fails
Safe-reject_if false e = returns refl

pub Safe-map {ℓ κ η ν} :
    {E : Type ℓ} {A : Type κ} {P : A → Type η} {Q : A → Type ν} {m : Outcome E A}
    → Safe P m
    → ((a : A) → P a → Q a)
    → Safe Q m
Safe-map (returns {a} p) k = returns (k a p)
Safe-map fails k = fails

module _ {ℓ κ μ η ν} {E : Type ℓ} {A : Type κ} {B : Type μ} {P : A → Type η} {Q : B → Type ν} where
  pub Safe-bind :
      (m : Outcome E A) (f : A → Outcome E B)
      → Safe P m
      → ((a : A) → P a → Safe Q (f a))
      → Safe Q (m >>= f)
  unfolding ◌>>=◌
  Safe-bind m f (returns {a} p) k = k a p
  Safe-bind m f fails k = fails

  -- The same, with the equation of the returned value.
  pub Safe-bind_eq :
      (m : Outcome E A) (f : A → Outcome E B)
      → Safe P m
      → ((a : A) → m ≡ ok a → P a → Safe Q (f a))
      → Safe Q (m >>= f)
  unfolding ◌>>=◌
  Safe-bind_eq m f (returns {a} p) k = k a refl p
  Safe-bind_eq m f fails k = fails

-- Where the value is known, the rest is about that value.
pub Safe-bind_is {ℓ κ μ ν} :
    {E : Type ℓ} {A : Type κ} {B : Type μ} {Q : B → Type ν} (m : Outcome E A) (f : A → Outcome E B)
    {c : A}
    → Safe (λ a. a ≡ c) m
    → Safe Q (f c)
    → Safe Q (m >>= f)
unfolding ◌>>=◌
Safe-bind_is {Q = Q} m f (returns {a} p) k = subst (λ x. Safe Q (f x)) (sym p) k
Safe-bind_is m f fails k = fails

-- An outcome that is no panic is a value or an error.
pub Safe-cases {ℓ κ μ ν} :
    {E : Type ℓ} {A : Type κ} {P : A → Type μ} {R : Type ν} (m : Outcome E A)
    → Safe P m
    → ((a : A) → m ≡ ok a → P a → R)
    → ((e : E) → m ≡ err e → R)
    → R
Safe-cases m (returns {a} p) k f = k a refl p
Safe-cases m (fails {e}) k f = f e refl

pub ok-injective {ℓ κ} :
    {E : Type ℓ} {A : Type κ} {a b : A} → ◌≡◌ {A = Outcome E A} (ok a) (ok b) → a ≡ b
ok-injective {E = E} {A} {a = a} e = ap (λ o. value_or o a) e
  where
    value_or : Outcome E A → A → A
    value_or (ok x) d = x
    value_or (err x) d = d
    value_or panic d = d

-- A sequence whose first step succeeds.
pub >>=-ok {ℓ κ μ} :
    {E : Type ℓ} {A : Type κ} {B : Type μ} (m : Outcome E A) (f : A → Outcome E B) {a : A}
    {r : Outcome E B}
    → m ≡ ok a
    → f a ≡ r
    → (m >>= f) ≡ r
unfolding ◌>>=◌
>>=-ok m f e k = ap (λ o. o >>= f) e ∙ k

-- What a sequence that succeeded went through.
pub >>=-eq-ok {ℓ κ μ} :
    {E : Type ℓ} {A : Type κ} {B : Type μ} (m : Outcome E A) (f : A → Outcome E B) {b : B}
    → (m >>= f) ≡ ok b
    → (a : A) × (m ≡ ok a) × (f a ≡ ok b)
unfolding ◌>>=◌
>>=-eq-ok (ok a) f h = (a, refl, h)
>>=-eq-ok (err e) f h = cc
>>=-eq-ok panic f h = cc

pub reject_if-eq-ok {ℓ} :
    {E : Type ℓ} (b : Bool) (e : E) {u : Unit {0}} → reject_if b e ≡ ok u → b ≡ false
unfolding reject_if
reject_if-eq-ok true e h = cc
reject_if-eq-ok false e h = refl

pub ok_or-eq-ok {ℓ κ} :
    {E : Type ℓ} {A : Type κ} (o : Option A) (e : E) {a : A} → ok_or o e ≡ ok a → o ≡ some a
unfolding ok_or
ok_or-eq-ok none e h = cc
ok_or-eq-ok (some a) e h = cc

-- An element, with the equation that says where it stands.
pub Safe-index_at {ℓ κ} :
    {E : Type ℓ} {A : Type κ} (xs : List A) (i : ℕ)
    → i < length xs
    → Safe {E = E} (λ x. get_elem? xs i ≡ some x) (index xs i)
Safe-index_at xs i h = Safe-index xs i h (λ x e. e)
