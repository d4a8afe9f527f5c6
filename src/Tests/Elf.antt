-- ===== src/Tests/Elf.antt =====
-- The theorems on Err and Elf at the small executable.
use app_elfloader.Prelude.{
  ℕ, ◌+◌, ◌%◌, ◌<◌, ◌≤◌, ◌≡◌, ◌≢◌, ◌↔◌, refl, none, some, List, arith, All, ◌-◌,
}
use app_elfloader.Outcome.{ok, err, panic, ◌>>=◌}
use app_elfloader.Word.{u64_end}
use app_elfloader.Word.Align.{down, up}
use app_elfloader.Err.{errno_of, as_neg, from_c, from_c-as_neg}
use app_elfloader.Elf.Header.{Phdr, em_x86_64, parse_ehdr, parse_phdr}
use app_elfloader.Elf.Header.Bounds.{EhdrFits, PhdrFits}
use app_elfloader.Elf.Header.Encode.{
  encode_ehdr, encode_phdr, parse_ehdr-encode_ehdr, parse_phdr-encode_phdr,
}
use app_elfloader.Elf.Source.{slice_source}
use app_elfloader.Elf.Align.{align_down, align_up, align_down_greatest, align_up_least}
use app_elfloader.Elf.Load.{validate_load, ValidLoad, validate_load_exact}
use app_elfloader.Elf.Image.{Image, parse_image}
use app_elfloader.Elf.Image.Parse.{IsWellFormed, parse_image-IsWellFormed}
use app_elfloader.Elf.Span.{va_span}
use app_elfloader.Elf.Span.Cover.{LiesIn, va_span_covers, loads_apart}
use app_elfloader.Elf.Interp.{interp_path, IsPathOf, interp_path-IsPathOf}
use app_elfloader.Tests.{
  page, page-IsPowerOfTwo, always, header, text, data_segment, file, image, file-IsReader,
  file_parses,
}

pub image-IsWellFormed : IsWellFormed em_x86_64 page (slice_source file).size image
image-IsWellFormed =
    (parse_image-IsWellFormed always em_x86_64 file-IsReader page-IsPowerOfTwo).1 image file_parses

parse_image-IsWellFormed_example :
    (parse_image always em_x86_64 (slice_source file) page ≢ panic)
    × ((accepted : Image)
        → parse_image always em_x86_64 (slice_source file) page ≡ ok accepted
        → IsWellFormed em_x86_64 page (slice_source file).size accepted)
parse_image-IsWellFormed_example =
    parse_image-IsWellFormed always em_x86_64 file-IsReader page-IsPowerOfTwo

va_span_covers_example :
    (va_span image page ≢ panic)
    × ((lo hi : ℕ)
        → va_span image page ≡ ok (lo, hi)
        → (lo % page ≡ 0)
          × (hi % page ≡ 0)
          × (lo ≤ hi)
          × All (LiesIn image.phdrs page-IsPowerOfTwo (slice_source file).size lo hi) image.loads)
va_span_covers_example = va_span_covers page-IsPowerOfTwo image-IsWellFormed

loads_apart_example : up (text.p_vaddr + text.p_memsz) page ≤ down data_segment.p_vaddr page
loads_apart_example =
    loads_apart page-IsPowerOfTwo always em_x86_64 file-IsReader image file_parses 0 1 2 0 text
      data_segment (omega arith) refl refl refl refl

validate_load_exact_example :
    (validate_load data_segment page (some 300) ≡ ok tt) ↔ ValidLoad data_segment page (some 300)
validate_load_exact_example =
    validate_load_exact page-IsPowerOfTwo data_segment (some 300) (omega arith)

align_down_greatest_example :
    (d : ℕ) × (align_down {E = Unit {0}} 5000 page ≡ ok d)
    × (d % page ≡ 0)
    × (d ≤ 5000)
    × ((m : ℕ) → m % page ≡ 0 → m ≤ 5000 → m ≤ d)
align_down_greatest_example = align_down_greatest 5000 page-IsPowerOfTwo (omega arith)

align_up_least_example :
    ((5000 + (page - 1) < u64_end)
      → (u : ℕ) × (align_up {E = Unit {0}} 5000 page ≡ ok (some u))
        × (u % page ≡ 0)
        × (5000 ≤ u)
        × ((m : ℕ) → m % page ≡ 0 → 5000 ≤ m → u ≤ m))
    × (u64_end ≤ 5000 + (page - 1) → align_up {E = Unit {0}} 5000 page ≡ ok none)
align_up_least_example = align_up_least 5000 page-IsPowerOfTwo

interp_path-IsPathOf_example :
    (interp_path always image (slice_source file) ≢ panic)
    × ((path : List ℕ)
        → interp_path always image (slice_source file) ≡ ok path
        → (ph : Phdr) × (image.interp ≡ some ph)
          × (buf : List ℕ) × ((slice_source file).read_exact_at ph.p_offset ph.p_filesz ≡ ok buf)
          × IsPathOf buf path)
interp_path-IsPathOf_example = interp_path-IsPathOf always image (slice_source file) file-IsReader

from_c-as_neg_example : (as_neg (errno_of 12) >>= from_c) ≡ err (errno_of 12)
from_c-as_neg_example = from_c-as_neg 12 (omega arith) (omega arith)

data_segment-PhdrFits : PhdrFits data_segment
data_segment-PhdrFits = record {
  p_type = omega arith;
  p_flags = omega arith;
  p_offset = omega arith;
  p_vaddr = omega arith;
  p_paddr = omega arith;
  p_filesz = omega arith;
  p_memsz = omega arith;
  p_align = omega arith;
}

parse_phdr-encode_phdr_example : parse_phdr (encode_phdr data_segment) ≡ ok data_segment
parse_phdr-encode_phdr_example = parse_phdr-encode_phdr data_segment data_segment-PhdrFits

header-EhdrFits : EhdrFits header
header-EhdrFits = record {
  ident = refl;
  e_type = omega arith;
  e_machine = omega arith;
  e_version = omega arith;
  e_entry = omega arith;
  e_phoff = omega arith;
  e_shoff = omega arith;
  e_flags = omega arith;
  e_ehsize = omega arith;
  e_phentsize = omega arith;
  e_phnum = omega arith;
  e_shentsize = omega arith;
  e_shnum = omega arith;
  e_shstrndx = omega arith;
}

parse_ehdr-encode_ehdr_example : parse_ehdr (encode_ehdr header) ≡ ok header
parse_ehdr-encode_ehdr_example = parse_ehdr-encode_ehdr header header-EhdrFits
