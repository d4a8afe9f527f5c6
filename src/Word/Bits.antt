-- ===== src/Word/Bits.antt =====
-- `&` with a mask of low bits, and with the complement of one, as arithmetic. The native operation
-- means `bitwise`, a recursion on binary digits with fuel; the first part drops the fuel.
use Prim.Native.Nat.{digits, bit_and-bitwise}
use native.Mathlib.Nat.{
  pow-suc, one-le-pow, le_refl, pow-le-pow_right, mul-add-mod_self_left, mod-eq_of_lt, mod-lt,
  div-add-mod,
}
use native.Mathlib.Decide.{dec_le}
use app_elfloader.Prelude.{
  ℕ, zero, suc, ◌+◌, ◌-◌, ◌*◌, ◌/◌, ◌%◌, ◌^◌, ◌≤◌, ◌<◌, min, bit_and, ◌≡◌, refl, arith, ap, sym,
  ◌∙◌,
}

-- The digits of `a & b`, from `fuel` rounds.
abbrev rounds : ℕ → ℕ → ℕ → ℕ
rounds fuel a b = digits (λ y. zero) min fuel a b

-- One round more than `a` needs changes nothing.
rounds-suc : (fuel a b : ℕ) → a ≤ fuel → rounds (suc fuel) a b ≡ rounds fuel a b
rounds-suc zero zero b h = refl
rounds-suc zero (suc a) b h = absurd (omega arith)
rounds-suc (suc fuel) zero b h = refl
rounds-suc (suc fuel) (suc a) b h = omega (arith, rounds-suc fuel (suc a / 2) (b / 2) (omega arith))

rounds_enough : (fuel a b : ℕ) → a ≤ fuel → rounds fuel a b ≡ bit_and a b
rounds_enough zero zero b h = sym (bit_and-bitwise 0 b)
rounds_enough zero (suc a) b h = absurd (omega arith)
rounds_enough (suc fuel) a b h = elim (dec_le a fuel) [
  | yes spare ↦ rounds-suc fuel a b spare ∙ rounds_enough fuel a b spare
  | no tight ↦ ap (λ (n : ℕ). rounds n a b) (all_used tight) ∙ sym (bit_and-bitwise a b)
]
  where
    all_used : ¬ (a ≤ fuel) → suc fuel ≡ a
    all_used tight = omega arith

-- The equation for the lowest digit.
bit_and_step : (a b : ℕ) → bit_and a b ≡ bit_and (a / 2) (b / 2) * 2 + min (a % 2) (b % 2)
bit_and_step zero b = omega (arith, rounds_enough 0 0 b, rounds_enough 0 0 (b / 2))
bit_and_step (suc a) b =
    let halves : rounds a (suc a / 2) (b / 2) ≡ bit_and (suc a / 2) (b / 2) =
      rounds_enough a (suc a / 2) (b / 2) (omega arith) in
    omega (arith, rounds_enough (suc a) (suc a) b, halves)

no_ones : (bound a : ℕ) → a ≤ bound → bit_and a 0 ≡ 0
no_ones bound zero h = sym (rounds_enough 0 0 0 (omega arith))
no_ones zero (suc a) h = absurd (omega arith)
no_ones (suc bound) (suc a) h =
    omega (arith, no_ones bound (suc a / 2) (omega arith), bit_and_step (suc a) 0)

bit_and-zero : (a : ℕ) → bit_and a 0 ≡ 0
bit_and-zero a = no_ones a a (le_refl a)

-- The remainder by `2 * d`, digit by digit.
mod_double : (a d : ℕ) → 0 < d → a % (2 * d) ≡ 2 * (a / 2 % d) + a % 2
mod_double a d h =
    ap (λ (t : ℕ). t % (2 * d)) split
    ∙ mul-add-mod_self_left (2 * d) (a / 2 / d) (2 * (a / 2 % d) + a % 2)
    ∙ mod-eq_of_lt (omega (arith, mod-lt (a / 2) h))
  where
    split : a ≡ 2 * d * (a / 2 / d) + (2 * (a / 2 % d) + a % 2)
    split = omega (arith, div-add-mod (a / 2) d)

two-pow-suc : (k : ℕ) → 2 ^ suc k ≡ 2 * 2 ^ k
two-pow-suc k = omega (arith, pow-suc 2 k)

-- A mask of `k` ones keeps the remainder by `2 ^ k`.
bit_and_mask : (k a : ℕ) → bit_and a (2 ^ k - 1) ≡ a % 2 ^ k
bit_and_mask zero a = omega (arith, bit_and-zero a)
bit_and_mask (suc k) a = ground (
  arith,
  bit_and_step a (2 ^ suc k - 1),
  two-pow-suc k,
  one-le-pow k 2,
  bit_and_mask k (a / 2),
  mod_double a (2 ^ k) (one-le-pow k 2 (omega arith)),
)

-- The ones from digit `k` up to digit `n`.
bit_and_high : (n k a : ℕ) → k ≤ n → bit_and a (2 ^ n - 2 ^ k) ≡ a % 2 ^ n - a % 2 ^ k
bit_and_high n zero a h = omega (arith, bit_and_mask n a)
bit_and_high (suc n) (suc k) a h =
    let mono : 2 ^ k ≤ 2 ^ n = pow-le-pow_right (omega arith) (omega arith) in
    ground (
      arith,
      bit_and_step a (2 ^ suc n - 2 ^ suc k),
      two-pow-suc k,
      two-pow-suc n,
      one-le-pow k 2,
      bit_and_high n k (a / 2),
      mod_double a (2 ^ k) (one-le-pow k 2 (omega arith)),
      mod_double a (2 ^ n) (one-le-pow n 2 (omega arith)),
    )
bit_and_high zero (suc k) a h = absurd (omega arith)

-- `a` is a power of two that fits a u64.
pub record IsPowerOfTwo (a : ℕ) : Type 0 where
  pub exponent : ℕ
  pub fits : exponent < 64
  pub is_power : a ≡ 2 ^ exponent

pub IsPowerOfTwo-pos : {a : ℕ} → IsPowerOfTwo a → 0 < a
IsPowerOfTwo-pos p = omega (arith, one-le-pow p.exponent 2 (omega arith), p.is_power)

pub IsPowerOfTwo-le : {a : ℕ} → IsPowerOfTwo a → a ≤ 9223372036854775808
IsPowerOfTwo-le {a} p =
    let mono : 2 ^ p.exponent ≤ 2 ^ 63 =
      pow-le-pow_right (omega arith) {j = 63} (omega (arith, p.fits)) in
    omega (arith, p.is_power)

-- `v & (a - 1)` is the remainder, and `v & !(a - 1)` is what is left without it.
pub bit_and_low : {a : ℕ} (v : ℕ) → IsPowerOfTwo a → bit_and v (a - 1) ≡ v % a
bit_and_low v p = rw p.is_power (bit_and_mask p.exponent v)

pub bit_and_down :
    {a : ℕ} (v : ℕ)
    → IsPowerOfTwo a
    → v < 18446744073709551616
    → bit_and v (18446744073709551615 - (a - 1)) ≡ v - v % a
bit_and_down {a} v p h =
    ap (λ (m : ℕ). bit_and v m) mask
    ∙ bit_and_high 64 p.exponent v (omega (arith, p.fits))
    ∙ omega (arith, p.is_power, ap (λ (t : ℕ). v % t) p.is_power)
  where
    mask : 18446744073709551615 - (a - 1) ≡ 2 ^ 64 - 2 ^ p.exponent
    mask = omega (arith, p.is_power, IsPowerOfTwo-pos p)

low_digits : (j k v : ℕ) → j ≤ k → v % 2 ^ k ≡ 0 → v % 2 ^ j ≡ 0
low_digits zero k v h e = omega arith
low_digits (suc j) zero v h e = absurd (omega arith)
low_digits (suc j) (suc k) v h e =
    let (even, halved) = parts in
    rw (two-pow-suc j) (
      omega (
        arith,
        mod_double v (2 ^ j) (one-le-pow j 2 (omega arith)),
        low_digits j k (v / 2) (omega arith) halved,
      ))
  where
    parts : (v % 2 ≡ 0) × (v / 2 % 2 ^ k ≡ 0)
    parts =
        let doubled = mod_double v (2 ^ k) (one-le-pow k 2 (omega arith)) in
        let e' : v % (2 * 2 ^ k) ≡ 0 = rw (two-pow-suc k) at e in (omega arith, omega arith)

exponent-le : (j k : ℕ) → 2 ^ j ≤ 2 ^ k → j ≤ k
exponent-le j k h = elim (dec_le j k) [
  | yes below ↦ below
  | no above ↦
      let more : 2 ^ suc k ≤ 2 ^ j = pow-le-pow_right (omega arith) (omega arith) in
      absurd (omega (arith, two-pow-suc k, one-le-pow k 2))
]

-- A multiple of a power of two is a multiple of every smaller one.
pub IsPowerOfTwo-mod :
    {a b : ℕ} → IsPowerOfTwo a → IsPowerOfTwo b → a ≤ b → (v : ℕ) → v % b ≡ 0 → v % a ≡ 0
IsPowerOfTwo-mod {a} {b} p q h v e =
    let smaller : 2 ^ p.exponent ≤ 2 ^ q.exponent = omega (arith, p.is_power, q.is_power) in
    rw p.is_power
      (low_digits p.exponent q.exponent v (exponent-le _ _ smaller) (rw q.is_power at e))
