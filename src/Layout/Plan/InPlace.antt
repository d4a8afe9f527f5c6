-- ===== src/Layout/Plan/InPlace.antt =====
-- Where the bytes of a segment stand once its plan is carried out.
use app_elfloader.Prelude.{
  ℕ, ◌+◌, ◌-◌, ◌%◌, ◌≤◌, ◌<◌, ◌≡◌, ◌≢◌, Bool, false, ◌&&◌, ◌||◌, ◌⊎◌, Option, none, some, ltb, leb,
  if◌then◌else◌, arith, Bool-cases, inl, inr, subst, sym, ltb→lt, not-ltb→le,
}
use app_elfloader.Outcome.{ok, panic, Safe, Safe-ok, Safe-ne_panic}
use app_elfloader.Word.{u64_end}
use app_elfloader.Word.Align.{down, up, down-le, le-up, up-mod, up-le, add-mod_multiple}
use app_elfloader.Word.Bits.{IsPowerOfTwo, IsPowerOfTwo-pos}
use app_elfloader.Elf.Header.{Phdr}
use app_elfloader.Elf.Load.{ValidLoad}
use app_elfloader.Layout.Plan.{FileMap, AnonMap, SegmentPlan, plan_segment}
use app_elfloader.Layout.Plan.Segment.{stretch, segment_of, Safe-plan_segment}

-- What stands at an address once the parts of a segment are in place: a byte of the file, a cleared
-- byte, or nothing but the reservation.
pub data Content : Type 0 where
  file_byte : ℕ → Content
  cleared reserved : Content

abbrev pub is_within : Option AnonMap → ℕ → Bool
is_within none addr = false
is_within (some m) addr = leb m.addr addr && ltb addr (m.addr + m.len)

abbrev pub file_content : Option FileMap → ℕ → Content
file_content none addr = reserved
file_content (some f) addr =
    if leb f.addr addr && ltb addr (f.addr + f.len)
    then file_byte (f.off + (addr - f.addr))
    else reserved

-- The file is mapped first, its tail is cleared, and anonymous pages replace what is there.
abbrev pub content_of : Option FileMap → Option AnonMap → Option AnonMap → ℕ → Content
content_of file zero_fill anon addr =
    if is_within anon addr || is_within zero_fill addr then cleared else file_content file addr

abbrev pub content : SegmentPlan → ℕ → Content
content seg addr = content_of seg.file seg.zero_fill seg.anon addr

-- The three parts over plain numbers: `r` bytes of the first page stand before the segment.
module _ (start v r file_size file_up mem_size mem_up off : ℕ) (low : start ≤ v)
    (room : file_size ≤ mem_size) (up_file : v + file_size ≤ file_up)
    (up_mem : v + mem_size ≤ mem_up) (ups : file_up ≤ mem_up) (is_r : r ≡ v - start)
    (before : r ≤ off) where
  abbrev whole : ℕ → Content
  whole =
      content_of (some (record { addr = start; len = file_up - start; off = off - r }))
        (stretch (v + file_size) file_up) (stretch file_up mem_up)

  whole-file : (k : ℕ) → k < file_size → whole (v + k) ≡ file_byte (off + k)
  whole-file k h = ground arith

  whole-cleared : (k : ℕ) → file_size ≤ k → k < mem_size → whole (v + k) ≡ cleared
  whole-cleared k h h' = ground arith

  whole-reserved : (addr : ℕ) → (addr < start) ⊎ (mem_up ≤ addr) → whole addr ≡ reserved
  whole-reserved addr h = ground arith

module _ (start v mem_size mem_up : ℕ) (low : start ≤ v) (up_mem : v + mem_size ≤ mem_up) where
  bss-cleared :
      (k : ℕ) → k < mem_size → content_of none none (stretch start mem_up) (v + k) ≡ cleared
  bss-cleared k h = ground arith

  bss-reserved :
      (addr : ℕ)
      → (addr < start) ⊎ (mem_up ≤ addr)
      → content_of none none (stretch start mem_up) addr ≡ reserved
  bss-reserved addr h = ground arith

-- Every byte of a segment that lies in the file stands where the program header puts it, every other
-- byte of it is cleared, and no part leaves the pages of the segment.
abbrev pub IsInPlace : ℕ → ℕ → Phdr → SegmentPlan → Type 0
IsInPlace page_size v ph seg =
    ((k : ℕ) → k < ph.p_filesz → content seg (v + k) ≡ file_byte (ph.p_offset + k))
    × ((k : ℕ) → ph.p_filesz ≤ k → k < ph.p_memsz → content seg (v + k) ≡ cleared)
    × ((addr : ℕ)
        → (addr < down v page_size) ⊎ (up (v + ph.p_memsz) page_size ≤ addr)
        → content seg addr ≡ reserved)

module _ {page_size : ℕ} (p : IsPowerOfTwo page_size) {size : Option ℕ} (bias i : ℕ) (ph : Phdr)
    (valid : ValidLoad ph page_size size) (aligned : bias % page_size ≡ 0) where
  pub segment_of-IsInPlace :
      IsInPlace page_size (ph.p_vaddr + bias) ph (segment_of page_size bias i ph)
  segment_of-IsInPlace = elim (Bool-cases (ltb 0 ph.p_filesz)) [
    | inl t ↦
        let apart = room_before (ltb→lt 0 ph.p_filesz t) in
        rw t (
          whole-file start v (v % page_size) ph.p_filesz file_up ph.p_memsz mem_up ph.p_offset low
              valid.file_within_memory up_file up_mem ups rest apart,
          whole-cleared start v (v % page_size) ph.p_filesz file_up ph.p_memsz mem_up ph.p_offset
              low valid.file_within_memory up_file up_mem ups rest apart,
          whole-reserved start v (v % page_size) ph.p_filesz file_up ph.p_memsz mem_up ph.p_offset
              low valid.file_within_memory up_file up_mem ups rest apart,
        )
    | inr f ↦
        let empty : ph.p_filesz ≤ 0 = not-ltb→le 0 ph.p_filesz f in
        rw f (
          λ k h. absurd (omega arith),
          λ k h h'. bss-cleared start v ph.p_memsz mem_up low up_mem k h',
          bss-reserved start v ph.p_memsz mem_up low up_mem,
        )
  ]
    where
      pos : 0 < page_size
      pos = IsPowerOfTwo-pos p

      v : ℕ
      v = ph.p_vaddr + bias

      start : ℕ
      start = down v page_size

      file_up : ℕ
      file_up = up (v + ph.p_filesz) page_size

      mem_up : ℕ
      mem_up = up (v + ph.p_memsz) page_size

      low : start ≤ v
      low = down-le page_size pos v

      up_file : v + ph.p_filesz ≤ file_up
      up_file = le-up page_size pos (v + ph.p_filesz)

      up_mem : v + ph.p_memsz ≤ mem_up
      up_mem = le-up page_size pos (v + ph.p_memsz)

      ups : file_up ≤ mem_up
      ups =
          up-le page_size pos mem_up (v + ph.p_filesz) (up-mod page_size pos (v + ph.p_memsz))
            (omega (arith, valid.file_within_memory, up_mem))

      rest : v % page_size ≡ v - start
      rest = omega arith

      room_before : 0 < ph.p_filesz → v % page_size ≤ ph.p_offset
      room_before h =
          omega (arith, add-mod_multiple page_size pos ph.p_vaddr bias aligned, valid.congruent h)

-- With a page size that is a power of two, a checked PT_LOAD entry, a page-aligned bias, and an end of
-- the segment that fits the address space, `plan`'s step for the entry does not panic, and in the
-- segment plan that it returns every byte that lies in the file is mapped where the program header
-- puts it, every other byte of the segment is cleared, and no part leaves the segment's pages.
pub plan_segment-IsInPlace :
    {page_size : ℕ} (p : IsPowerOfTwo page_size) {size : Option ℕ} (bias i : ℕ) (ph : Phdr)
    → ValidLoad ph page_size size
    → bias % page_size ≡ 0
    → ph.p_vaddr + bias + ph.p_memsz < u64_end
    → (plan_segment page_size bias i ph ≢ panic)
      × ((seg : SegmentPlan)
          → plan_segment page_size bias i ph ≡ ok seg
          → IsInPlace page_size (ph.p_vaddr + bias) ph seg)
plan_segment-IsInPlace {page_size} p bias i ph valid aligned fits = (
  Safe-ne_panic safe,
  λ seg e.
      subst (IsInPlace page_size (ph.p_vaddr + bias) ph) (sym (Safe-ok safe e))
        (segment_of-IsInPlace p bias i ph valid aligned),
)
  where
    safe : Safe (λ seg. seg ≡ segment_of page_size bias i ph) (plan_segment page_size bias i ph)
    safe = Safe-plan_segment p ph bias i valid aligned fits
