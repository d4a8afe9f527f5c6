-- ===== src/Tests/Layout.antt =====
-- The theorems on Layout at the small executable.
use app_elfloader.Elf.Image.{Image}
use app_elfloader.Elf.Header.{pt_phdr}
use app_elfloader.Prelude.{ap, sym, some-injective, ℕ, ◌+◌, ◌≡◌, ◌≢◌, refl, some, arith, inr}
use app_elfloader.Outcome.{ok, panic}
use app_elfloader.Elf.Load.{ValidLoad}
use app_elfloader.Outcome.{◌>>=◌}
use app_elfloader.Word.{add64, sub64}
use app_elfloader.Elf.Header.{Phdr, is_read, is_write, is_exec}
use app_elfloader.Elf.Align.{align_up, align_down, is_power_of_two}
use app_elfloader.Elf.Span.{va_span, span_of, last_of, strongest, load_align}
use app_elfloader.Layout.Plan.{
  SegmentPlan, LoadPlan, at, fixed, plan_segment, plan_segments, file_part, gap, place, seg_align,
  reservation_len, plan, prot_of, range_of, range,
}
use app_elfloader.Prelude.{true, false, [], ◌∷◌, none}
use app_elfloader.Tests.{always, image, text}
use app_elfloader.Tests.Elf.{image-IsWellFormed}
use app_elfloader.Word.Align.{up}
use app_elfloader.Layout.Plan.Sound.{IsSound, plan_at-IsSound, plan_fixed-IsSound}
use app_elfloader.Layout.View.{phdr_addr, phdr_addr-Shows, NamesTable, Shows}
use app_elfloader.Layout.Prot.{prot_of_exact}
use app_elfloader.Layout.Plan.{prot_read, prot_write, prot_exec}
use app_elfloader.Prelude.{bit_and, ◌==◌, not, ◌≤◌}
use app_elfloader.Layout.Plan.InPlace.{IsInPlace, plan_segment-IsInPlace}
use app_elfloader.Tests.{page, page-IsPowerOfTwo, data_segment}

data_segment-ValidLoad : ValidLoad data_segment page (some 300)
data_segment-ValidLoad = record {
  file_within_memory = omega arith;
  align_is_power = inr page-IsPowerOfTwo;
  memory_fits = omega arith;
  file_fits = omega arith;
  within_file = λ size e. grind arith;
  congruent = λ h. refl;
}

plan_segment-IsInPlace_example :
    (plan_segment page 8192 0 data_segment ≢ panic)
    × ((seg : SegmentPlan)
        → plan_segment page 8192 0 data_segment ≡ ok seg
        → IsInPlace page (data_segment.p_vaddr + 8192) data_segment seg)
plan_segment-IsInPlace_example =
    plan_segment-IsInPlace page-IsPowerOfTwo 8192 0 data_segment data_segment-ValidLoad refl
      (omega arith)

unfoldable pub expected : LoadPlan
expected = record {
  bias = 65536;
  reserve_addr = 65536;
  reserve_len = 16384;
  base = 65536;
  end = 81920;
  align = page;
  segments =
      record {
        idx = 2;
        file = some (record { addr = 65536; len = page; off = 0 });
        zero_fill = some (record { addr = 65772; len = 3860 });
        anon = none;
        prot = 5;
        needs_write_window = true;
      }
      ∷ record {
        idx = 0;
        file = some (record { addr = 69632; len = page; off = 0 });
        zero_fill = some (record { addr = 69876; len = 3852 });
        anon = some (record { addr = 73728; len = 8192 });
        prot = 3;
        needs_write_window = false;
      }
      ∷ [];
  entry = 65768;
}

pub image_reserves : reservation_len image page ≡ ok 16384
unfolding reservation_len va_span span_of seg_align last_of strongest load_align align_up align_down
    is_power_of_two sub64 add64 ◌>>=◌
image_reserves = refl

image_planned : plan always image page (at 65536) ≡ ok expected
unfolding expected plan plan_segments plan_segment file_part gap place va_span span_of seg_align
    last_of strongest load_align align_up align_down is_power_of_two sub64 add64 ◌>>=◌ prot_of
    is_read is_write is_exec
image_planned = refl

plan_at-IsSound_example :
    (plan always image page (at 65536) ≢ panic)
    × ((pl : LoadPlan)
        → plan always image page (at 65536) ≡ ok pl
        → IsSound page image pl
          × (pl.reserve_addr ≡ 65536)
          × (pl.reserve_len ≡ 16384)
          × (pl.base ≡ up 65536 pl.align))
plan_at-IsSound_example =
    plan_at-IsSound always page-IsPowerOfTwo image-IsWellFormed 65536 16384 refl image_reserves
      (omega arith)

plan_fixed-IsSound_example :
    (plan always image page fixed ≢ panic)
    × ((pl : LoadPlan)
        → plan always image page fixed ≡ ok pl
        → IsSound page image pl
          × (pl.bias ≡ 0)
          × (va_span image page ≡ ok (pl.reserve_addr, pl.reserve_addr + pl.reserve_len)))
plan_fixed-IsSound_example = plan_fixed-IsSound always page-IsPowerOfTwo image-IsWellFormed

pub expected-IsSound : IsSound page image expected
expected-IsSound =
    ((plan_at-IsSound always page-IsPowerOfTwo image-IsWellFormed 65536 16384 refl image_reserves
        (omega arith)).1
      expected image_planned).0

-- The same image with a PT_PHDR entry, at the place where the text segment puts the table.
abbrev table : Phdr
table = record {
  p_type = pt_phdr;
  p_flags = 4;
  p_offset = 64;
  p_vaddr = 64;
  p_paddr = 64;
  p_filesz = 168;
  p_memsz = 168;
  p_align = 8;
}

abbrev named_image : Image
named_image = record image { phdr_seg = some table }

named_image-NamesTable : NamesTable named_image
named_image-NamesTable ph e = (
  0,
  2,
  text,
  refl,
  refl,
  omega arith,
  omega arith,
  ap (λ (x : Phdr). x.p_vaddr + 0) (sym (some-injective table ph e)),
)

named_image-IsSound : IsSound page named_image expected
named_image-IsSound = record {
  bias_aligned = expected-IsSound.bias_aligned;
  from_reservation = expected-IsSound.from_reservation;
  to_reservation = expected-IsSound.to_reservation;
  no_wrap = expected-IsSound.no_wrap;
  entry_biased = expected-IsSound.entry_biased;
  arranged = expected-IsSound.arranged;
}

phdr_addr-Shows_example :
    (phdr_addr expected named_image ≢ panic)
    × ((addr : ℕ)
        → phdr_addr expected named_image ≡ ok addr
        → Shows expected.segments named_image.ehdr.e_phoff addr)
phdr_addr-Shows_example = phdr_addr-Shows expected named_image-IsSound named_image-NamesTable

prot_of_exact_example :
    (not (bit_and (prot_of text) prot_read == 0) ≡ is_read text)
    × (not (bit_and (prot_of text) prot_write == 0) ≡ is_write text)
    × (not (bit_and (prot_of text) prot_exec == 0) ≡ is_exec text)
    × (prot_of text ≤ 7)
prot_of_exact_example = prot_of_exact text

-- The range of the second segment, its .bss included.
range_of_data :
    range {E = Unit {0}} (record {
      idx = 0;
      file = some (record { addr = 69632; len = page; off = 0 });
      zero_fill = none;
      anon = some (record { addr = 73728; len = 8192 });
      prot = 3;
      needs_write_window = false;
    })
    ≡ ok (69632, 81920)
unfolding range range_of add64 ◌>>=◌
range_of_data = refl
