-- ===== src/Word/Align.antt =====
-- Multiples of an alignment `a`.
use native.Mathlib.Nat.{
  add-zero, add-mod, add-mod-mod, mod-lt, zero-mod, mod-eq_of_lt, div-add-mod, mul-mod_right,
}
use native.Mathlib.Decide.{dec_le}
use app_elfloader.Prelude.{ℕ, ◌+◌, ◌-◌, ◌*◌, ◌/◌, ◌%◌, ◌≤◌, ◌<◌, ◌≡◌, arith, ap, sym, ◌∙◌}

-- The multiple at or below `v`.
abbrev pub down : ℕ → ℕ → ℕ
down v a = v - v % a

-- The multiple at or above `v`.
abbrev pub up : ℕ → ℕ → ℕ
up v a = down (v + (a - 1)) a

module _ (a : ℕ) (pos : 0 < a) where
  pub down-le : (v : ℕ) → down v a ≤ v
  down-le v = omega arith

  pub lt-down-add : (v : ℕ) → v < down v a + a
  lt-down-add v = omega (arith, mod-lt v pos)

  pub down-mod : (v : ℕ) → down v a % a ≡ 0
  down-mod v = ap (λ (t : ℕ). t % a) quotient ∙ mul-mod_right a (v / a)
    where
      quotient : v - v % a ≡ a * (v / a)
      quotient = omega (arith, div-add-mod v a)

  pub add-mod_zero : (m n : ℕ) → m % a ≡ 0 → n % a ≡ 0 → (m + n) % a ≡ 0
  add-mod_zero m n p q = add-mod m n a ∙ grind arith

  -- A multiple does not change the remainder.
  pub add-mod_multiple : (m n : ℕ) → n % a ≡ 0 → (m + n) % a ≡ m % a
  add-mod_multiple m n q =
      sym (add-mod-mod m n a) ∙ ap (λ (t : ℕ). (m + t) % a) q ∙ ap (λ (t : ℕ). t % a) (add-zero m)

  pub sub-mod_zero : (m n : ℕ) → m % a ≡ 0 → n % a ≡ 0 → (m - n) % a ≡ 0
  sub-mod_zero m n p q = elim (dec_le n m) [
    | yes h ↦ sym (add-mod_multiple (m - n) n q) ∙ ap (λ (t : ℕ). t % a) (restored h) ∙ p
    | no h ↦ ap (λ (t : ℕ). t % a) (none_left h) ∙ zero-mod a
  ]
    where
      restored : n ≤ m → m - n + n ≡ m
      restored h = omega arith

      none_left : ¬ (n ≤ m) → m - n ≡ 0
      none_left h = omega arith

  -- Multiples stand `a` apart.
  pub multiples_apart : (m n : ℕ) → m % a ≡ 0 → n % a ≡ 0 → m < n → m + a ≤ n
  multiples_apart m n p q h = elim (dec_le (m + a) n) [
    | yes far ↦ far
    | no near ↦ absurd (omega (arith, sub-mod_zero n m q p, small near))
  ]
    where
      small : ¬ (m + a ≤ n) → (n - m) % a ≡ n - m
      small near = mod-eq_of_lt (omega arith)

  -- `down v a` is the largest multiple below `v`.
  pub le-down : (m v : ℕ) → m % a ≡ 0 → m ≤ v → m ≤ down v a
  le-down m v p h = ground (arith, multiples_apart (down v a) m (down-mod v) p, lt-down-add v)

  pub le-up : (v : ℕ) → v ≤ up v a
  le-up v = omega (arith, mod-lt (v + (a - 1)) pos)

  pub up-lt : (v : ℕ) → up v a < v + a
  up-lt v = omega arith

  pub up-mod : (v : ℕ) → up v a % a ≡ 0
  up-mod v = down-mod (v + (a - 1))

  -- `up v a` is the smallest multiple above `v`.
  pub up-le : (m v : ℕ) → m % a ≡ 0 → v ≤ m → up v a ≤ m
  up-le m v p h = ground (arith, multiples_apart m (up v a) p (up-mod v), up-lt v)
