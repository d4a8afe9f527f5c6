-- ===== src/Layout/Plan.antt =====
-- rust/src/layout.rs: the plan's data, `prot_of`, `reservation_len`, `seg_align` and `plan`.
pub mod Segment
pub mod InPlace
pub mod Shape
pub mod Place
pub mod Arrange
pub mod Sound
use app_elfloader.Prelude.{
  ℕ, ◌+◌, ◌-◌, ◌*◌, min, max, bit_and, bit_or, Bool, true, false, not, ◌&&◌, Option, none, some,
  List, [], ◌∷◌, length, ltb, leb, ◌==◌, if◌then◌else◌,
}
use app_elfloader.Outcome.{Outcome, ok, err, panic, index, reject_if, ok_or, ◌>>=◌, ◌>>◌}
use app_elfloader.Word.{checked_add, checked_sub, add64, sub64}
use app_elfloader.Err.{Error, enomem, enoexec}
use app_elfloader.Elf.Header.{Phdr, is_read, is_write, is_exec}
use app_elfloader.Elf.Align.{align_down, align_up}
use app_elfloader.Elf.Image.{Image}
use app_elfloader.Elf.Span.{va_span, load_align}

abbrev pub prot_none : ℕ
prot_none = 0

abbrev pub prot_read : ℕ
prot_read = 1

abbrev pub prot_write : ℕ
prot_write = 2

abbrev pub prot_exec : ℕ
prot_exec = 4

abbrev pub max_seg_align : ℕ
max_seg_align = 2 * 1024 * 1024

-- `p |= bit` under a test.
abbrev pub with_bit : Bool → ℕ → ℕ → ℕ
with_bit b bit p = if b then bit_or p bit else p

unfoldable pub prot_of : Phdr → ℕ
prot_of ph =
    with_bit (is_exec ph) prot_exec
      (with_bit (is_write ph) prot_write (with_bit (is_read ph) prot_read prot_none))

pub record FileMap : Type 0 where
  pub addr : ℕ
  pub len : ℕ
  pub off : ℕ

pub record AnonMap : Type 0 where
  pub addr : ℕ
  pub len : ℕ

pub record SegmentPlan : Type 0 where
  pub idx : ℕ
  pub file : Option FileMap
  pub zero_fill : Option AnonMap
  pub anon : Option AnonMap
  pub prot : ℕ
  pub needs_write_window : Bool

-- `SegmentPlan::range`, from the two parts that it reads.
unfoldable pub range_of {ℓ} : {E : Type ℓ} → Option FileMap → Option AnonMap → Outcome E (ℕ × ℕ)
range_of none none = ok (0, 0)
range_of none (some a) = do end ← add64 a.addr a.len; ok (a.addr, end)
range_of (some f) none = do end ← add64 f.addr f.len; ok (f.addr, end)
range_of (some f) (some a) = do end ← add64 a.addr a.len; ok (f.addr, end)

unfoldable pub range {ℓ} : {E : Type ℓ} → SegmentPlan → Outcome E (ℕ × ℕ)
unfolding range_of
range seg = range_of seg.file seg.anon

pub record LoadPlan : Type 0 where
  pub bias : ℕ
  pub reserve_addr : ℕ
  pub reserve_len : ℕ
  pub base : ℕ
  pub end : ℕ
  pub align : ℕ
  pub segments : List SegmentPlan
  pub entry : ℕ

pub data Placement : Type 0 where
  fixed : Placement
  at : ℕ → Placement

unfoldable pub seg_align : Image → ℕ → Outcome Error ℕ
seg_align image page_size = do
  a ← load_align image page_size
  ok (max (min a max_seg_align) page_size)

unfoldable pub reservation_len : Image → ℕ → Outcome Error ℕ
reservation_len image page_size = do
  (lo, hi) ← va_span image page_size
  align ← seg_align image page_size
  span ← ok_or (checked_sub hi lo) enoexec
  slack ← sub64 align page_size
  ok_or (checked_add span slack) enoexec

pub record Placed : Type 0 where
  pub bias : ℕ
  pub reserve_addr : ℕ
  pub reserve_len : ℕ

unfoldable pub place : Placement → ℕ → ℕ → ℕ → ℕ → Outcome Error Placed
place fixed page_size va_lo span align =
    ok (record { bias = 0; reserve_addr = va_lo; reserve_len = span })
place (at raw) page_size va_lo span align = do
  rounded ← align_up raw align
  base ← ok_or rounded enomem
  bias ← ok_or (checked_sub base va_lo) enomem
  slack ← sub64 align page_size
  len ← add64 span slack
  ok (record { bias = bias; reserve_addr = raw; reserve_len = len })

-- The file-backed part of a segment, the bytes to clear behind it, and where it ends.
pub record FilePart : Type 0 where
  pub file : Option FileMap
  pub zero_fill : Option AnonMap
  pub file_end : ℕ

-- `if end > start { Some(AnonMap { addr: start, len: end - start }) } else { None }`
unfoldable pub gap : ℕ → ℕ → Outcome Error (Option AnonMap)
gap start end =
    if ltb start end
    then (do len ← sub64 end start; ok (some (record { addr = start; len = len })))
    else ok none

unfoldable pub file_part : ℕ → Phdr → ℕ → ℕ → ℕ → Outcome Error FilePart
file_part page_size ph vaddr mstart fdelta =
    if ltb 0 ph.p_filesz
    then (do
      fend ← add64 vaddr ph.p_filesz
      rounded ← align_up fend page_size
      fmap_end ← ok_or rounded enomem
      len ← sub64 fmap_end mstart
      off ← sub64 ph.p_offset fdelta
      z ← gap fend fmap_end
      ok (record {
        file = some (record { addr = mstart; len = len; off = off });
        zero_fill = z;
        file_end = fmap_end;
      }))
    else ok (record { file = none; zero_fill = none; file_end = mstart })

abbrev pub is_some {ℓ} : {A : Type ℓ} → Option A → Bool
is_some none = false
is_some (some a) = true

unfoldable pub plan_segment : ℕ → ℕ → ℕ → Phdr → Outcome Error SegmentPlan
plan_segment page_size bias i ph = do
  vaddr ← ok_or (checked_add ph.p_vaddr bias) enomem
  mstart ← align_down vaddr page_size
  fdelta ← sub64 vaddr mstart
  end ← add64 vaddr ph.p_memsz
  rounded ← align_up end page_size
  mem_end ← ok_or rounded enomem
  part ← file_part page_size ph vaddr mstart fdelta
  anon ← gap part.file_end mem_end
  ok (record {
    idx = i;
    file = part.file;
    zero_fill = part.zero_fill;
    anon = anon;
    prot = prot_of ph;
    needs_write_window = is_some part.zero_fill && bit_and (prot_of ph) prot_write == 0;
  })

-- The loop over the loads.
unfoldable pub plan_segments : ℕ → ℕ → List Phdr → List ℕ → Outcome Error (List SegmentPlan)
plan_segments page_size bias phdrs [] = ok []
plan_segments page_size bias phdrs (i ∷ is) = do
  ph ← index phdrs i
  seg ← plan_segment page_size bias i ph
  rest ← plan_segments page_size bias phdrs is
  ok (seg ∷ rest)

-- `reserve n` says whether the allocator can hold `n` elements more.
unfoldable pub plan : (ℕ → Bool) → Image → ℕ → Placement → Outcome Error LoadPlan
plan reserve image page_size placement = do
  (va_lo, va_hi) ← va_span image page_size
  align ← seg_align image page_size
  span ← sub64 va_hi va_lo
  placed ← place placement page_size va_lo span align
  base ← add64 va_lo placed.bias
  end ← add64 va_hi placed.bias
  reject_if (not (reserve (length image.loads))) enomem
  segments ← plan_segments page_size placed.bias image.phdrs image.loads
  entry ← ok_or (checked_add image.ehdr.e_entry placed.bias) enomem
  ok (record {
    bias = placed.bias;
    reserve_addr = placed.reserve_addr;
    reserve_len = placed.reserve_len;
    base = base;
    end = end;
    align = align;
    segments = segments;
    entry = entry;
  })
