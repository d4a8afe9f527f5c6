-- ===== src/Sys/AppStack.antt =====
-- rust/src/sys.rs: `AppStack`, the stack of the application thread, with the memory that its raw
-- writes change.
use app_elfloader.Prelude.{
  ℕ, zero, suc, ◌+◌, ◌-◌, ◌≤◌, ◌<◌, ◌≡◌, ◌⊎◌, inl, inr, min, refl, ◌||◌, List, [], ◌∷◌, length,
  get_elem?, some, some-injective, arith, ltb, leb, if◌then◌else◌, Bool-cases, le→leb, leb→le, ap,
  ◌∙◌,
}
use app_elfloader.Outcome.{Outcome, ok, reject_if, ◌>>◌, returns, Safe-bind, Safe-reject_if}
use app_elfloader.Word.{u64_max}
use app_elfloader.Err.{Error, e2big}
use app_elfloader.Auxv.{StackWriter}
use app_elfloader.Auxv.Writer.{IsWriter}

-- `memory` is what the address space holds.
pub record AppStack : Type 0 where
  pub lo : ℕ
  pub hi : ℕ
  pub memory : ℕ → ℕ

-- The byte at index `k`, or `old` behind the end.
abbrev pub byte_or : List ℕ → ℕ → ℕ → ℕ
byte_or [] k old = old
byte_or (b ∷ bs) zero old = b
byte_or (b ∷ bs) (suc k) old = byte_or bs k old

-- `copy_nonoverlapping` to address `a`.
abbrev pub copied : List ℕ → ℕ → (ℕ → ℕ) → ℕ → ℕ
copied bytes a memory x = if leb a x then byte_or bytes (x - a) (memory x) else memory x

abbrev pub saturating_add : ℕ → ℕ → ℕ
saturating_add a b = min (a + b) u64_max

unfoldable pub app_stack_write : AppStack → ℕ → List ℕ → Outcome Error AppStack
app_stack_write s addr bytes = do
  reject_if (ltb addr s.lo || ltb s.hi (saturating_add addr (length bytes))) e2big
  ok (record s { memory = copied bytes addr s.memory })

unfoldable pub app_stack : StackWriter AppStack
unfolding app_stack_write
app_stack = record { top = λ s. s.hi; bottom = λ s. s.lo; write = app_stack_write }

byte_or-inside : (bs : List ℕ) (k old : ℕ) {v : ℕ} → get_elem? bs k ≡ some v → byte_or bs k old ≡ v
byte_or-inside [] k old e = cc
byte_or-inside (b ∷ bs) zero old e = some-injective b _ e
byte_or-inside (b ∷ bs) (suc k) old e = byte_or-inside bs k old e

byte_or-outside : (bs : List ℕ) (k old : ℕ) → length bs ≤ k → byte_or bs k old ≡ old
byte_or-outside [] k old h = refl
byte_or-outside (b ∷ bs) zero old h = absurd (omega arith)
byte_or-outside (b ∷ bs) (suc k) old h = byte_or-outside bs k old (omega arith)

copied-inside :
    (bs : List ℕ) (a : ℕ) (m : ℕ → ℕ) (k v : ℕ)
    → get_elem? bs k ≡ some v
    → copied bs a m (a + k) ≡ v
copied-inside bs a m k v e =
    rw (le→leb a (a + k) (omega arith))
      (ap (λ (j : ℕ). byte_or bs j (m (a + k))) (omega arith) ∙ byte_or-inside bs k _ e)

copied-outside :
    (bs : List ℕ) (a : ℕ) (m : ℕ → ℕ) (x : ℕ)
    → (x < a) ⊎ (a + length bs ≤ x)
    → copied bs a m x ≡ m x
copied-outside bs a m x h = elim (Bool-cases (leb a x)) [
  | inl t ↦ rw t (byte_or-outside bs (x - a) (m x) (ground (arith, leb→le a x t)))
  | inr f ↦ rw f
]

-- `AppStack::write` changes just the bytes that it is given, and refuses those outside the stack.
pub app_stack-IsWriter : IsWriter app_stack (λ s. s.memory)
unfolding app_stack app_stack_write
app_stack-IsWriter = record {
  writes = λ s a bs low high.
      Safe-bind _ _ (Safe-reject_if (ltb a s.lo || ltb s.hi (saturating_add a (length bs))) e2big)
        λ _ _. returns (record {
          same_top = refl;
          same_bottom = refl;
          shows = copied-inside bs a s.memory;
          keeps = copied-outside bs a s.memory;
        });
}
