-- ===== src/Word.antt =====
-- Unsigned 64-bit arithmetic as Rust compiles it here: `+` and `-` panic on overflow
-- (rust/Cargo.toml sets `overflow-checks`), `checked_add` and `checked_sub` return `None`.
-- `usize` is 64 bits wide on both targets of the program.
pub mod Bits
pub mod Align
use app_elfloader.Prelude.{
  ℕ, ◌+◌, ◌-◌, ◌*◌, ◌^◌, ◌≤◌, ◌<◌, ◌≡◌, refl, Option, none, some, true, false, ltb, leb,
  if◌then◌else◌, arith, subst, sym,
}
use app_elfloader.Outcome.{Outcome, ok, panic, Safe, returns}

-- 2 ^ 64
abbrev pub u64_end : ℕ
u64_end = 18446744073709551616

-- u64::MAX
abbrev pub u64_max : ℕ
u64_max = 18446744073709551615

-- `!x` on u64
abbrev pub bit_not : ℕ → ℕ
bit_not x = u64_max - x

abbrev pub checked_add : ℕ → ℕ → Option ℕ
checked_add a b = if ltb (a + b) u64_end then some (a + b) else none

abbrev pub checked_sub : ℕ → ℕ → Option ℕ
checked_sub a b = if leb b a then some (a - b) else none

abbrev pub checked_mul : ℕ → ℕ → Option ℕ
checked_mul a b = if ltb (a * b) u64_end then some (a * b) else none

-- `a + b` and `a - b`
unfoldable pub add64 {ℓ} : {E : Type ℓ} → ℕ → ℕ → Outcome E ℕ
add64 a b = if ltb (a + b) u64_end then ok (a + b) else panic

unfoldable pub sub64 {ℓ} : {E : Type ℓ} → ℕ → ℕ → Outcome E ℕ
sub64 a b = if leb b a then ok (a - b) else panic

pub add64-eq {ℓ} : {E : Type ℓ} (a b : ℕ) → a + b < u64_end → add64 {E = E} a b ≡ ok (a + b)
unfolding add64
add64-eq a b h = ground arith

pub sub64-eq {ℓ} : {E : Type ℓ} (a b : ℕ) → b ≤ a → sub64 {E = E} a b ≡ ok (a - b)
unfolding sub64
sub64-eq a b h = ground arith

pub Safe-add64 {ℓ} :
    {E : Type ℓ} (a b : ℕ) → a + b < u64_end → Safe {E = E} (λ c. c ≡ a + b) (add64 a b)
Safe-add64 a b h = subst (Safe (λ c. c ≡ a + b)) (sym (add64-eq a b h)) (returns refl)

pub Safe-sub64 {ℓ} : {E : Type ℓ} (a b : ℕ) → b ≤ a → Safe {E = E} (λ c. c ≡ a - b) (sub64 a b)
Safe-sub64 a b h = subst (Safe (λ c. c ≡ a - b)) (sym (sub64-eq a b h)) (returns refl)

pub sub64-eq-ok {ℓ} : {E : Type ℓ} (a b : ℕ) {c : ℕ} → sub64 {E = E} a b ≡ ok c → c ≡ a - b
unfolding sub64
sub64-eq-ok a b e = ground arith

unfoldable pub mul64 {ℓ} : {E : Type ℓ} → ℕ → ℕ → Outcome E ℕ
mul64 a b = if ltb (a * b) u64_end then ok (a * b) else panic

pub mul64-eq {ℓ} : {E : Type ℓ} (a b : ℕ) → a * b < u64_end → mul64 {E = E} a b ≡ ok (a * b)
unfolding mul64
mul64-eq a b h = ground arith

pub Safe-mul64 {ℓ} :
    {E : Type ℓ} (a b : ℕ) → a * b < u64_end → Safe {E = E} (λ c. c ≡ a * b) (mul64 a b)
Safe-mul64 a b h = subst (Safe (λ c. c ≡ a * b)) (sym (mul64-eq a b h)) (returns refl)

pub checked_add-eq-some :
    (a b : ℕ) {c : ℕ} → checked_add a b ≡ some c → (c ≡ a + b) × (a + b < u64_end)
checked_add-eq-some a b h = ground arith

pub checked_sub-eq-some : (a b : ℕ) {c : ℕ} → checked_sub a b ≡ some c → (c ≡ a - b) × (b ≤ a)
checked_sub-eq-some a b h = ground arith

pub checked_mul-eq-some :
    (a b : ℕ) {c : ℕ} → checked_mul a b ≡ some c → (c ≡ a * b) × (a * b < u64_end)
checked_mul-eq-some a b h = ground arith
