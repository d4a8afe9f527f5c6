-- ===== src/Loader/CopiedCell.antt =====
-- One byte of a load that `fill_copied` copied.
use app_elfloader.Prelude.{
  ℕ, ◌+◌, ◌-◌, ◌≤◌, ◌<◌, ◌≡◌, ◌⊎◌, refl, Bool, true, false, some, if◌then◌else◌, arith, ap, ◌∙◌,
}
use app_elfloader.Elf.Header.{Phdr}
use app_elfloader.Loader.Range.{within_outside, with_datum-writable, with_datum-datum}
use app_elfloader.Loader.Memory.{Cell, within, stored, is_writable, with_datum, datum}
use app_elfloader.Loader.Copy.{stored_from}

-- One load in memory: the file's bytes from `v` on, and zeros from their end to that of the last page.
abbrev pub copied_cell : (ℕ → ℕ) → Phdr → ℕ → ℕ → ℕ → Cell → Cell
copied_cell contents ph v stop x c =
    if within (v + ph.p_filesz) (stop - (v + ph.p_filesz)) x
    then with_datum (stored 0) (stored_from (λ d. contents (ph.p_offset + d)) v v ph.p_filesz x c)
    else stored_from (λ d. contents (ph.p_offset + d)) v v ph.p_filesz x c

pub stored_from-writable :
    (g : ℕ → ℕ) (base addr len x : ℕ) (c : Cell)
    → is_writable (stored_from g base addr len x c) ≡ is_writable c
stored_from-writable g base addr len x c = from (within addr len x)
  where
    from :
        (b : Bool)
        → is_writable (if b then with_datum (stored (g (x - base))) c else c) ≡ is_writable c
    from true = with_datum-writable (stored (g (x - base))) c
    from false = refl

pub copied_cell-writable :
    (contents : ℕ → ℕ) (ph : Phdr) (v stop x : ℕ) (c : Cell)
    → is_writable (copied_cell contents ph v stop x c) ≡ is_writable c
copied_cell-writable contents ph v stop x c =
    from (within (v + ph.p_filesz) (stop - (v + ph.p_filesz)) x)
  where
    first : Cell
    first = stored_from (λ d. contents (ph.p_offset + d)) v v ph.p_filesz x c

    from :
        (b : Bool) → is_writable (if b then with_datum (stored 0) first else first) ≡ is_writable c
    from true =
        with_datum-writable (stored 0) first
        ∙ stored_from-writable (λ d. contents (ph.p_offset + d)) v v ph.p_filesz x c
    from false = stored_from-writable (λ d. contents (ph.p_offset + d)) v v ph.p_filesz x c

pub copied_cell-outside :
    (contents : ℕ → ℕ) (ph : Phdr) (v stop x : ℕ) (c : Cell)
    → v + ph.p_filesz ≤ stop
    → (x < v) ⊎ (stop ≤ x)
    → copied_cell contents ph v stop x c ≡ c
copied_cell-outside contents ph v stop x c fits off =
    ap (λ b. if b then with_datum (stored 0) first else first)
      (within_outside v stop (v + ph.p_filesz) (stop - (v + ph.p_filesz)) x (omega arith)
        (omega arith) off)
    ∙ ap (λ b. if b then with_datum (stored (contents (ph.p_offset + (x - v)))) c else c)
        (within_outside v stop v ph.p_filesz x (omega arith) fits off)
  where
    first : Cell
    first = stored_from (λ d. contents (ph.p_offset + d)) v v ph.p_filesz x c

pub copied_cell-file :
    (contents : ℕ → ℕ) (ph : Phdr) (v stop k : ℕ) (c : Cell)
    → k < ph.p_filesz
    → is_writable c ≡ true
    → datum (copied_cell contents ph v stop (v + k) c) ≡ some (stored (contents (ph.p_offset + k)))
copied_cell-file contents ph v stop k c h w =
    ap (λ b. datum (if b then with_datum (stored 0) first else first)) behind
    ∙ ap
        (λ b. datum (if b then with_datum (stored (contents (ph.p_offset + (v + k - v)))) c else c))
        inside
    ∙ with_datum-datum (stored (contents (ph.p_offset + (v + k - v)))) c w
    ∙ ap (λ (j : ℕ). some (stored (contents (ph.p_offset + j)))) (omega arith)
  where
    first : Cell
    first = stored_from (λ d. contents (ph.p_offset + d)) v v ph.p_filesz (v + k) c

    behind : within (v + ph.p_filesz) (stop - (v + ph.p_filesz)) (v + k) ≡ false
    behind = ground arith

    inside : within v ph.p_filesz (v + k) ≡ true
    inside = ground arith

pub copied_cell-zeros :
    (contents : ℕ → ℕ) (ph : Phdr) (v stop k : ℕ) (c : Cell)
    → ph.p_filesz ≤ k
    → v + k < stop
    → is_writable c ≡ true
    → datum (copied_cell contents ph v stop (v + k) c) ≡ some (stored 0)
copied_cell-zeros contents ph v stop k c h below w =
    ap (λ b. datum (if b then with_datum (stored 0) first else first)) behind
    ∙ with_datum-datum (stored 0) first
        (stored_from-writable (λ d. contents (ph.p_offset + d)) v v ph.p_filesz (v + k) c ∙ w)
  where
    first : Cell
    first = stored_from (λ d. contents (ph.p_offset + d)) v v ph.p_filesz (v + k) c

    behind : within (v + ph.p_filesz) (stop - (v + ph.p_filesz)) (v + k) ≡ true
    behind = ground arith
