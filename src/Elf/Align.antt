-- ===== src/Elf/Align.antt =====
-- rust/src/elf.rs: `align_down`, `align_up`, and `u64::is_power_of_two` of the standard library.
use mathlib.Core.Option
use app_elfloader.Prelude.{
  ℕ, zero, suc, ◌+◌, ◌-◌, ◌*◌, ◌/◌, ◌%◌, ◌^◌, ◌<◌, ◌≤◌, ◌≡◌, inl, inr, refl, ap, ◌∙◌, Bool, true,
  Option, none, some, bit_and, ltb, ◌==◌, if◌then◌else◌, arith, Bool-cases, ltb→lt, ==_iff,
}
use native.Mathlib.Nat.{pow-suc}
use native.Mathlib.Decide.{ℕ_discrete}
use app_elfloader.Outcome.{Outcome, ok, ok_or, ◌>>=◌, Safe, returns, fails}
use app_elfloader.Word.{u64_end, bit_not, checked_add, sub64, sub64-eq}
use app_elfloader.Word.Bits.{IsPowerOfTwo, IsPowerOfTwo-pos, bit_and_down}
use app_elfloader.Word.Align.{down, up, down-le, down-mod, le-down, le-up, up-mod, up-le}

-- The number of ones among the lowest digits.
abbrev pub count_ones : ℕ → ℕ → ℕ
count_ones zero v = 0
count_ones (suc n) v = v % 2 + count_ones n (v / 2)

unfoldable pub is_power_of_two : ℕ → Bool
is_power_of_two v = count_ones 64 v == 1

-- `a - 1` panics at 0.
unfoldable pub align_down {ℓ} : {E : Type ℓ} → ℕ → ℕ → Outcome E ℕ
align_down v a = do m ← sub64 a 1; ok (bit_and v (bit_not m))

unfoldable pub align_up {ℓ} : {E : Type ℓ} → ℕ → ℕ → Outcome E (Option ℕ)
align_up v a = do m ← sub64 a 1; ok (Option.map (λ x. bit_and x (bit_not m)) (checked_add v m))

module _ {ℓ} {E : Type ℓ} {a : ℕ} (p : IsPowerOfTwo a) where
  pub align_down-eq : (v : ℕ) → v < u64_end → align_down {E = E} v a ≡ ok (down v a)
  unfolding align_down ◌>>=◌
  align_down-eq v h = rw (sub64-eq {E = E} a 1 (IsPowerOfTwo-pos p), bit_and_down v p h)

  pub align_up-eq :
      (v : ℕ)
      → align_up {E = E} v a ≡ ok (if ltb (v + (a - 1)) u64_end then some (up v a) else none)
  unfolding align_up ◌>>=◌
  align_up-eq v =
      rw (sub64-eq {E = E} a 1 (IsPowerOfTwo-pos p))
        (elim (Bool-cases (ltb (v + (a - 1)) u64_end)) [
          | inl t ↦ rw (t, bit_and_down (v + (a - 1)) p (ground arith))
          | inr f ↦ rw f
        ])

  pub Safe-align_down : (v : ℕ) → v < u64_end → Safe {E = E} (λ d. d ≡ down v a) (align_down v a)
  Safe-align_down v h = rw (align_down-eq v h) (returns refl)

  pub Safe-align_up :
      (v : ℕ)
      → Safe {E = E}
          (λ r. (x : ℕ) → r ≡ some x → (x ≡ up v a) × (v + (a - 1) < u64_end))
          (align_up v a)
  Safe-align_up v = rw (align_up-eq v) (returns (λ x e. ground arith))

-- `align_up(..).ok_or(..)?`
pub Safe-round {ℓ κ ν} :
    {E : Type ℓ} {B : Type κ} {Q : B → Type ν} {a : ℕ}
    → IsPowerOfTwo a
    → (v : ℕ) (e : E) (f : ℕ → Outcome E B) → (v + (a - 1) < u64_end → Safe Q (f (up v a)))
    → Safe Q (align_up v a >>= λ r. ok_or r e >>= f)
unfolding ◌>>=◌
Safe-round {a = a} p v e f k = elim (Bool-cases (ltb (v + (a - 1)) u64_end)) [
  | inl t ↦ rw (align_up-eq p v, t) (k (ltb→lt _ _ t))
  | inr f' ↦ rw (align_up-eq p v, f') fails
]

-- For a power of two, `align_down` returns the greatest multiple at or below its argument.
pub align_down_greatest :
    {a : ℕ} (v : ℕ)
    → IsPowerOfTwo a
    → v < u64_end
    → (d : ℕ) × (align_down {E = Unit {0}} v a ≡ ok d)
      × (d % a ≡ 0)
      × (d ≤ v)
      × ((m : ℕ) → m % a ≡ 0 → m ≤ v → m ≤ d)
align_down_greatest {a} v p h = (
  down v a,
  align_down-eq p v h,
  down-mod a (IsPowerOfTwo-pos p) v,
  down-le a (IsPowerOfTwo-pos p) v,
  λ m e k. le-down a (IsPowerOfTwo-pos p) m v e k,
)

-- For a power of two, `align_up` returns the least multiple at or above its argument when the
-- argument plus `a - 1` fits a u64, and `None` otherwise.
pub align_up_least :
    {a : ℕ} (v : ℕ)
    → IsPowerOfTwo a
    → ((v + (a - 1) < u64_end)
        → (u : ℕ) × (align_up {E = Unit {0}} v a ≡ ok (some u))
          × (u % a ≡ 0)
          × (v ≤ u)
          × ((m : ℕ) → m % a ≡ 0 → v ≤ m → u ≤ m))
      × (u64_end ≤ v + (a - 1) → align_up {E = Unit {0}} v a ≡ ok none)
align_up_least {a} v p = (
  λ h. (
    up v a,
    rw (align_up-eq p v) (ground arith),
    up-mod a (IsPowerOfTwo-pos p) v,
    le-up a (IsPowerOfTwo-pos p) v,
    λ m e k. up-le a (IsPowerOfTwo-pos p) m v e k,
  ),
  λ h. rw (align_up-eq p v) (ground arith),
)

count_ones_zero : (n v : ℕ) → v < 2 ^ n → count_ones n v ≡ 0 → v ≡ 0
count_ones_zero zero v h e = omega arith
count_ones_zero (suc n) v h e =
    omega (arith, pow-suc 2 n, count_ones_zero n (v / 2) (omega (arith, pow-suc 2 n)) (omega arith))

count_ones_one : (n v : ℕ) → v < 2 ^ n → count_ones n v ≡ 1 → (k : ℕ) × (k < n) × (v ≡ 2 ^ k)
count_ones_one zero v h e = absurd (omega arith)
count_ones_one (suc n) v h e = elim (ℕ_discrete (v % 2) 1) [
  | yes odd ↦ (
    0,
    omega arith,
    omega (arith, count_ones_zero n (v / 2) (omega (arith, pow-suc 2 n)) (omega arith)),
  )
  | no even ↦
      let rest = count_ones_one n (v / 2) (omega (arith, pow-suc 2 n)) (omega arith) in
      (suc rest.0, omega (arith, rest.1), omega (arith, rest.2, pow-suc 2 rest.0))
]

pub is_power_of_two-IsPowerOfTwo : (v : ℕ) → v < u64_end → is_power_of_two v ≡ true → IsPowerOfTwo v
unfolding is_power_of_two
is_power_of_two-IsPowerOfTwo v h e =
    let (k, below, power) = count_ones_one 64 v (omega arith) ((==_iff (count_ones 64 v) 1).0 e) in
    record { exponent = k; fits = below; is_power = power }

count_ones_none : (n : ℕ) → count_ones n 0 ≡ 0
count_ones_none zero = refl
count_ones_none (suc n) = omega (arith, count_ones_none n)

count_ones-pow : (n k : ℕ) → k < n → count_ones n (2 ^ k) ≡ 1
count_ones-pow zero k h = elim h [ ]
count_ones-pow (suc n) zero h = omega (arith, count_ones_none n)
count_ones-pow (suc n) (suc k) h =
    ap (λ (v : ℕ). v % 2 + count_ones n (v / 2)) (pow-suc 2 k)
    ∙ ap (λ (v : ℕ). 2 ^ k * 2 % 2 + count_ones n v) halved
    ∙ omega (arith, count_ones-pow n k (omega arith))
  where
    halved : 2 ^ k * 2 / 2 ≡ 2 ^ k
    halved = omega arith

pub IsPowerOfTwo-is_power_of_two : {v : ℕ} → IsPowerOfTwo v → is_power_of_two v ≡ true
unfolding is_power_of_two
IsPowerOfTwo-is_power_of_two {v} p =
    (==_iff (count_ones 64 v) 1).1
      (ap (count_ones 64) p.is_power ∙ count_ones-pow 64 p.exponent p.fits)
