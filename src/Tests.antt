-- ===== src/Tests.antt =====
-- A small position-independent x86-64 executable, run through the parser and the planner.
pub mod Elf
pub mod Vm
pub mod Loader
pub mod Program
pub mod Layout
pub mod Auxv
pub mod Util
pub mod Log
pub mod Sys
pub mod App
pub mod Binfmt
use app_elfloader.Prelude.{
  ℕ, ◌+◌, ◌<◌, ◌≤◌, ◌≡◌, refl, Bool, true, false, Option, none, some, List, [], ◌∷◌, ◌++◌, length,
  ltb, arith, All, Bool-cases, inl, inr, if◌then◌else◌, ltb→lt,
}
use app_elfloader.Outcome.{Outcome, ok, ◌>>=◌}
use app_elfloader.Word.{add64, sub64, mul64}
use app_elfloader.Word.Bits.{IsPowerOfTwo}
use app_elfloader.Elf.Header.{
  Ehdr, Phdr, IsBytes, pt_load, pt_interp, et_dyn, em_x86_64, read_le, parse_ehdr, parse_phdr,
  is_exec,
}
use app_elfloader.Elf.Header.Encode.{encode_ehdr, encode_phdr}
use app_elfloader.Elf.Source.{
  ImageSource, slice_read, slice_source, IsReader, slice_source-IsReader,
}
use app_elfloader.Elf.Load.{check_end, check_congruence, validate_load}
use app_elfloader.Elf.Align.{is_power_of_two, align_down, align_up}
use app_elfloader.Elf.Image.{
  Image, bytes_eq, check_ident, check_ehdr, check_table, read_table, check_interp_end,
  classify_load, classify_interp, classify_other, classify_one, classify, insert_load, sort_loads,
  check_pair, check_overlaps, parse_image,
}

abbrev pub page : ℕ
page = 4096

pub page-IsPowerOfTwo : IsPowerOfTwo page
page-IsPowerOfTwo = record { exponent = 12; fits = omega arith; is_power = refl }

abbrev pub always : ℕ → Bool
always n = true

abbrev pub header : Ehdr
header = record {
  ident = 0x7f ∷ b'E' ∷ b'L' ∷ b'F' ∷ 2 ∷ 1 ∷ 1 ∷ 0 ∷ 0 ∷ 0 ∷ 0 ∷ 0 ∷ 0 ∷ 0 ∷ 0 ∷ 0 ∷ [];
  e_type = et_dyn;
  e_machine = em_x86_64;
  e_version = 1;
  e_entry = 232;
  e_phoff = 64;
  e_shoff = 0;
  e_flags = 0;
  e_ehsize = 64;
  e_phentsize = 56;
  e_phnum = 3;
  e_shentsize = 0;
  e_shnum = 0;
  e_shstrndx = 0;
}

-- The headers and the path, executable.
abbrev pub text : Phdr
text = record {
  p_type = pt_load;
  p_flags = 5;
  p_offset = 0;
  p_vaddr = 0;
  p_paddr = 0;
  p_filesz = 236;
  p_memsz = 236;
  p_align = 4096;
}

-- Eight bytes of data and two pages of zeros.
abbrev pub data_segment : Phdr
data_segment = record {
  p_type = pt_load;
  p_flags = 6;
  p_offset = 236;
  p_vaddr = 4332;
  p_paddr = 4332;
  p_filesz = 8;
  p_memsz = 8000;
  p_align = 4096;
}

abbrev pub interpreter : Phdr
interpreter = record {
  p_type = pt_interp;
  p_flags = 4;
  p_offset = 232;
  p_vaddr = 232;
  p_paddr = 232;
  p_filesz = 4;
  p_memsz = 4;
  p_align = 1;
}

abbrev pub file : List ℕ
file =
    encode_ehdr header
    ++ encode_phdr data_segment
    ++ encode_phdr interpreter
    ++ encode_phdr text
    ++ (b'/' ∷ b'l' ∷ b'd' ∷ 0 ∷ [])
    ++ (1 ∷ 2 ∷ 3 ∷ 4 ∷ 5 ∷ 6 ∷ 7 ∷ 8 ∷ [])

-- The loads are sorted: the text segment stands last in the table.
abbrev pub image : Image
image = record {
  ehdr = header;
  phdrs = data_segment ∷ interpreter ∷ text ∷ [];
  loads = 2 ∷ 0 ∷ [];
  interp = some interpreter;
  phdr_seg = none;
  tls = none;
  relro = none;
  exec_stack = false;
}

abbrev pub all_bytes : List ℕ → Bool
all_bytes [] = true
all_bytes (b ∷ bs) = if ltb b 256 then all_bytes bs else false

pub all_bytes-IsBytes : (bs : List ℕ) → all_bytes bs ≡ true → IsBytes bs
all_bytes-IsBytes [] h = tt
all_bytes-IsBytes (b ∷ bs) h = elim (Bool-cases (ltb b 256)) [
  | inl t ↦ (ltb→lt b 256 t, all_bytes-IsBytes bs (rw t at h))
  | inr f ↦ absurd (grind arith)
]

pub file-IsBytes : IsBytes file
file-IsBytes = all_bytes-IsBytes file refl

pub file-IsReader : IsReader (slice_source file)
file-IsReader = slice_source-IsReader file file-IsBytes

pub file_parses : parse_image always em_x86_64 (slice_source file) page ≡ ok image
unfolding parse_image read_le parse_ehdr parse_phdr slice_read slice_source check_end
    check_congruence validate_load is_power_of_two align_down align_up bytes_eq check_ident
    check_ehdr check_table read_table check_interp_end classify_load classify_interp classify_other
    classify_one classify insert_load sort_loads check_pair check_overlaps add64 sub64 mul64 ◌>>=◌
    is_exec
file_parses = refl
