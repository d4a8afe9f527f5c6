-- ===== src/Loader/Range.antt =====
-- Ranges of addresses, and memory that changed in one.
use app_elfloader.Prelude.{
  ℕ, ◌+◌, ◌-◌, ◌≤◌, ◌<◌, ◌≡◌, ◌≢◌, ◌⊎◌, true, false, if◌then◌else◌, arith, Bool-cases, inl, inr, ap,
  ◌∙◌,
}
use app_elfloader.Loader.Memory.{
  Cell, Datum, free, held, within, changed, SameOutside, AllFree, AllWritable, is_writable,
  with_datum, with_prot, datum,
}
use app_elfloader.Prelude.{some, refl}

pub within-part :
    (addr len a l x : ℕ)
    → addr ≤ a
    → a + l ≤ addr + len
    → within a l x ≡ true
    → within addr len x ≡ true
within-part addr len a l x low high h = ground arith

pub within_off :
    (addr len a l x : ℕ)
    → addr ≤ a
    → a + l ≤ addr + len
    → within addr len x ≡ false
    → within a l x ≡ false
within_off addr len a l x low high h = ground arith

pub within_before :
    (addr len a l x : ℕ) → addr + len ≤ a → within a l x ≡ true → within addr len x ≡ false
within_before addr len a l x before h = ground arith

pub within_after :
    (addr len a l x : ℕ) → addr + len ≤ a → within addr len x ≡ true → within a l x ≡ false
within_after addr len a l x before h = ground arith

pub within_outside :
    (start stop addr len x : ℕ)
    → start ≤ addr
    → addr + len ≤ stop
    → (x < start) ⊎ (stop ≤ x)
    → within addr len x ≡ false
within_outside start stop addr len x low high h = ground arith

pub changed-outside :
    (addr len : ℕ) (f : ℕ → Cell → Cell) (v : ℕ → Cell)
    → SameOutside addr len v (changed addr len f v)
changed-outside addr len f v x h = ap (λ b. if b then f (x - addr) (v x) else v x) h

pub changed-inside :
    (addr len : ℕ) (f : ℕ → Cell → Cell) (v : ℕ → Cell) (x : ℕ)
    → within addr len x ≡ true
    → changed addr len f v x ≡ f (x - addr) (v x)
changed-inside addr len f v x h = ap (λ b. if b then f (x - addr) (v x) else v x) h

-- What was held before is as it was.
abbrev pub KeepsHeld : (ℕ → Cell) → (ℕ → Cell) → Type 0
KeepsHeld v v' = (x : ℕ) → v x ≢ free → v' x ≡ v x

-- Changes inside a range that was free leave what was held alone.
pub outside-KeepsHeld :
    {v v' : ℕ → Cell} (addr len : ℕ)
    → AllFree v addr len
    → SameOutside addr len v v'
    → KeepsHeld v v'
outside-KeepsHeld addr len was_free same x kept = elim (Bool-cases (within addr len x)) [
  | inl t ↦ absurd (kept (was_free x t))
  | inr f ↦ same x f
]

pub AllWritable-part :
    (v : ℕ → Cell) (addr len a l : ℕ)
    → addr ≤ a
    → a + l ≤ addr + len
    → AllWritable v addr len
    → AllWritable v a l
AllWritable-part v addr len a l low high w x h = w x (within-part addr len a l x low high h)

pub with_datum-writable : (d : Datum) (c : Cell) → is_writable (with_datum d c) ≡ is_writable c
with_datum-writable d free = refl
with_datum-writable d (held prot old) = refl

pub with_datum-datum :
    (d : Datum) (c : Cell) → is_writable c ≡ true → datum (with_datum d c) ≡ some d
with_datum-datum d free h = cc
with_datum-datum d (held prot old) h = refl

pub with_prot-datum : (prot : ℕ) (c : Cell) → datum (with_prot prot c) ≡ datum c
with_prot-datum prot free = refl
with_prot-datum prot (held old d) = refl

-- Storing keeps what is writable.
pub changed-writable :
    (addr len : ℕ) (g : ℕ → Datum) (v : ℕ → Cell) (x : ℕ)
    → is_writable (changed addr len (λ k c. with_datum (g k) c) v x) ≡ is_writable (v x)
changed-writable addr len g v x = elim (Bool-cases (within addr len x)) [
  | inl t ↦
      ap is_writable (changed-inside addr len (λ k c. with_datum (g k) c) v x t)
      ∙ with_datum-writable (g (x - addr)) (v x)
  | inr f ↦ ap is_writable (changed-outside addr len (λ k c. with_datum (g k) c) v x f)
]
