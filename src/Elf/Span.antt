-- ===== src/Elf/Span.antt =====
-- rust/src/elf.rs: `Image::va_span` and `Image::load_align`.
pub mod Cover
use app_elfloader.Prelude.{ℕ, ◌&&◌, Option, none, some, List, [], ◌∷◌, ltb, if◌then◌else◌}
use app_elfloader.Outcome.{Outcome, ok, panic, index, ok_or, ◌>>=◌}
use app_elfloader.Word.{add64}
use app_elfloader.Err.{Error, enoexec}
use app_elfloader.Elf.Header.{Phdr}
use app_elfloader.Elf.Align.{align_down, align_up, is_power_of_two}
use app_elfloader.Elf.Image.{Image}

-- `*loads.last().unwrap()`
unfoldable pub last_of {ℓ} : {E : Type ℓ} → List ℕ → Outcome E ℕ
last_of [] = panic
last_of (i ∷ []) = ok i
last_of (i ∷ j ∷ rest) = last_of (j ∷ rest)

-- `va_span`, from the two fields that it reads.
unfoldable pub span_of : List Phdr → List ℕ → ℕ → Outcome Error (ℕ × ℕ)
span_of phdrs loads page_size = do
  i ← index loads 0
  first ← index phdrs i
  j ← last_of loads
  last ← index phdrs j
  lo ← align_down first.p_vaddr page_size
  end ← add64 last.p_vaddr last.p_memsz
  rounded ← align_up end page_size
  hi ← ok_or rounded enoexec
  ok (lo, hi)

unfoldable pub va_span : Image → ℕ → Outcome Error (ℕ × ℕ)
va_span image page_size = span_of image.phdrs image.loads page_size

-- The loop of `load_align`, with the alignment found so far.
unfoldable pub strongest : List Phdr → List ℕ → ℕ → Outcome Error ℕ
strongest phdrs [] a = ok a
strongest phdrs (i ∷ is) a = do
  ph ← index phdrs i
  strongest phdrs is (if ltb a ph.p_align && is_power_of_two ph.p_align then ph.p_align else a)

unfoldable pub load_align : Image → ℕ → Outcome Error ℕ
load_align image page_size = strongest image.phdrs image.loads page_size
