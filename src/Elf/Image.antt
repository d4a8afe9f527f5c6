-- ===== src/Elf/Image.antt =====
-- rust/src/elf.rs: `Image` and `Image::parse`, cut into its stages: identification, program header
-- table, classification of the entries, order and overlap of the PT_LOAD entries.
pub mod Table
pub mod Classify
pub mod Order
pub mod Parse
use app_elfloader.Prelude.{
  ℕ, zero, suc, ◌+◌, Bool, true, false, not, ◌&&◌, ◌||◌, Option, none, some, List, [], ◌∷◌, ◌++◌,
  length, take, ltb, ◌==◌, if◌then◌else◌,
}
use app_elfloader.Outcome.{Outcome, ok, err, index, reject_if, ok_or, map_err, ◌>>=◌, ◌>>◌}
use app_elfloader.Word.{checked_add, checked_mul, add64, mul64}
use app_elfloader.Elf.Header.{
  Ehdr, Phdr, ehdr_size, phdr_size, elfmag, ei_class, ei_data, ei_version, ei_osabi, elfclass64,
  elfdata2lsb, ev_current, elfosabi_none, elfosabi_gnu, elfosabi_arm_aeabi, et_exec, et_dyn,
  pn_xnum, phnum_max, interp_max, pt_load, pt_interp, pt_phdr, pt_tls, pt_gnu_relro, pt_gnu_stack,
  parse_ehdr, parse_phdr, is_exec,
}
use app_elfloader.Elf.Source.{ImageSource}
use app_elfloader.Elf.Reject.{Reject, not_elf, unsupported, malformed}
use app_elfloader.Elf.Align.{align_down, align_up}
use app_elfloader.Elf.Load.{check_end, validate_load}

pub record Image : Type 0 where
  pub ehdr : Ehdr
  pub phdrs : List Phdr
  pub loads : List ℕ
  pub interp : Option Phdr
  pub phdr_seg : Option Phdr
  pub tls : Option Phdr
  pub relro : Option Phdr
  pub exec_stack : Bool

unfoldable pub is_pie : Image → Bool
is_pie image = image.ehdr.e_type == et_dyn

unfoldable pub needs_interp : Image → Bool
needs_interp image = elim image.interp [ none ↦ false | some ph ↦ true ]

unfoldable pub bytes_eq : List ℕ → List ℕ → Bool
bytes_eq [] [] = true
bytes_eq [] (y ∷ ys) = false
bytes_eq (x ∷ xs) [] = false
bytes_eq (x ∷ xs) (y ∷ ys) = x == y && bytes_eq xs ys

unfoldable pub check_ident : List ℕ → Outcome Reject (Unit {0})
check_ident ident = do
  class ← index ident ei_class
  encoding ← index ident ei_data
  version ← index ident ei_version
  reject_if
      (not (bytes_eq (take 4 ident) elfmag)
        || not (class == elfclass64)
        || not (encoding == elfdata2lsb)
        || not (version == ev_current))
      not_elf
  osabi ← index ident ei_osabi
  reject_if (not (osabi == elfosabi_none || osabi == elfosabi_gnu || osabi == elfosabi_arm_aeabi))
      (unsupported "unsupported ELF OS ABI")

-- `native` is the machine that the loader is built for.
unfoldable pub check_ehdr : ℕ → Ehdr → Outcome Reject (Unit {0})
check_ehdr native ehdr = do
  check_ident ehdr.ident
  reject_if (not (ehdr.e_machine == native)) (unsupported "ELF machine type mismatch")
  reject_if (not (ehdr.e_type == et_dyn) && not (ehdr.e_type == et_exec))
      (unsupported "ELF is neither ET_DYN nor ET_EXEC")
  reject_if (not (ehdr.e_version == 1)) (malformed "unsupported ELF version")
  reject_if (ehdr.e_phnum == pn_xnum) (unsupported "PN_XNUM program header count")
  reject_if (ehdr.e_phnum == 0) (malformed "no program headers")
  reject_if (ltb phnum_max ehdr.e_phnum) (malformed "implausible program header count")
  reject_if (ltb ehdr.e_phentsize phdr_size) (malformed "program header entry too small")

unfoldable pub check_table : Option ℕ → Ehdr → Outcome Reject (Unit {0})
check_table size ehdr = do
  phtab_len ←
      ok_or (checked_mul ehdr.e_phnum ehdr.e_phentsize) (malformed "program header table overflows")
  phtab_end ←
      ok_or (checked_add ehdr.e_phoff phtab_len) (malformed "program header table overflows")
  check_end size phtab_end "program header table past end of file"

-- The loop over the table, at entry `i` with `left` entries to read.
unfoldable pub read_table : ImageSource → ℕ → ℕ → ℕ → ℕ → Outcome Reject (List Phdr)
read_table src phoff phentsize zero i = ok []
read_table src phoff phentsize (suc left) i = do
  distance ← mul64 i phentsize
  off ← add64 phoff distance
  ent ← map_err (src.read_exact_at off phdr_size) (λ _. malformed "truncated program header table")
  ph ← map_err (parse_phdr ent) (λ _. malformed "bad program header")
  rest ← read_table src phoff phentsize left (i + 1)
  ok (ph ∷ rest)

-- What the loop over the entries has picked out.
pub record Found : Type 0 where
  pub loads : List ℕ
  pub interp : Option Phdr
  pub phdr_seg : Option Phdr
  pub tls : Option Phdr
  pub relro : Option Phdr
  pub exec_stack : Bool

abbrev pub nothing_found : Found
nothing_found = record {
  loads = [];
  interp = none;
  phdr_seg = none;
  tls = none;
  relro = none;
  exec_stack = false;
}

abbrev is_some : Option Phdr → Bool
is_some none = false
is_some (some ph) = true

-- The end is computed only where the size is known.
unfoldable pub check_interp_end : Option ℕ → Phdr → Outcome Reject (Unit {0})
check_interp_end none ph = ok tt
check_interp_end (some size) ph = do
  end ← ok_or (checked_add ph.p_offset ph.p_filesz) (malformed "PT_INTERP overflows")
  reject_if (ltb size end) (malformed "PT_INTERP past end of file")

unfoldable pub classify_load : ℕ → Option ℕ → ℕ → Phdr → Found → Outcome Reject Found
classify_load page_size size i ph found = do
  validate_load ph page_size size
  ok (record found { loads = found.loads ++ i ∷ [] })

unfoldable pub classify_interp : Option ℕ → Phdr → Found → Outcome Reject Found
classify_interp size ph found = do
  reject_if (is_some found.interp) (unsupported "multiple PT_INTERP")
  reject_if (ph.p_filesz == 0 || ltb interp_max ph.p_filesz)
      (malformed "implausible PT_INTERP length")
  check_interp_end size ph
  ok (record found { interp = some ph })

-- The entries that are only noted.
unfoldable pub classify_other : Phdr → Found → Found
classify_other ph found =
    if ph.p_type == pt_phdr
    then record found { phdr_seg = some ph }
    else if ph.p_type == pt_tls
    then record found { tls = some ph }
    else if ph.p_type == pt_gnu_relro
    then record found { relro = some ph }
    else if ph.p_type == pt_gnu_stack
    then record found { exec_stack = is_exec ph }
    else found

unfoldable pub classify_one : ℕ → Option ℕ → ℕ → Phdr → Found → Outcome Reject Found
classify_one page_size size i ph found =
    if ph.p_type == pt_load
    then classify_load page_size size i ph found
    else if ph.p_type == pt_interp
    then classify_interp size ph found
    else ok (classify_other ph found)

-- The loop over the entries, at index `i`.
unfoldable pub classify : ℕ → Option ℕ → ℕ → List Phdr → Found → Outcome Reject Found
classify page_size size i [] found = ok found
classify page_size size i (ph ∷ rest) found = do
  found' ← classify_one page_size size i ph found
  classify page_size size (i + 1) rest found'

-- A stable sort, `loads.sort_by_key(|&i| phdrs[i].p_vaddr)`, by insertion.
unfoldable pub insert_load : List Phdr → ℕ → List ℕ → Outcome Reject (List ℕ)
insert_load phdrs i [] = ok (i ∷ [])
insert_load phdrs i (j ∷ js) = do
  a ← index phdrs i
  b ← index phdrs j
  later ← insert_load phdrs i js
  ok (if ltb b.p_vaddr a.p_vaddr then j ∷ later else i ∷ j ∷ js)

unfoldable pub sort_loads : List Phdr → List ℕ → Outcome Reject (List ℕ)
sort_loads phdrs [] = ok []
sort_loads phdrs (i ∷ is) = do sorted ← sort_loads phdrs is; insert_load phdrs i sorted

-- One window of two neighbours.
unfoldable pub check_pair : ℕ → Phdr → Phdr → Outcome Reject (Unit {0})
check_pair page_size a b = do
  end ← add64 a.p_vaddr a.p_memsz
  rounded ← align_up end page_size
  a_end ← ok_or rounded (malformed "segment end overflows")
  b_page ← align_down b.p_vaddr page_size
  a_page ← align_down a_end page_size
  reject_if (ltb b.p_vaddr a_end && ltb b_page a_page) (malformed "overlapping PT_LOAD segments")

unfoldable pub check_overlaps : List Phdr → ℕ → List ℕ → Outcome Reject (Unit {0})
check_overlaps phdrs page_size [] = ok tt
check_overlaps phdrs page_size (i ∷ []) = ok tt
check_overlaps phdrs page_size (i ∷ j ∷ rest) = do
  a ← index phdrs i
  b ← index phdrs j
  check_pair page_size a b
  check_overlaps phdrs page_size (j ∷ rest)

-- `reserve n` says whether the allocator can hold `n` elements more.
unfoldable pub parse_image : (ℕ → Bool) → ℕ → ImageSource → ℕ → Outcome Reject Image
parse_image reserve native src page_size = do
  raw ← map_err (src.read_exact_at 0 ehdr_size) (λ _. not_elf)
  ehdr ← map_err (parse_ehdr raw) (λ _. not_elf)
  check_ehdr native ehdr
  check_table src.size ehdr
  reject_if (not (reserve ehdr.e_phnum)) (malformed "out of memory reading program headers")
  phdrs ← read_table src ehdr.e_phoff ehdr.e_phentsize ehdr.e_phnum 0
  found ← classify page_size src.size 0 phdrs nothing_found
  reject_if (length found.loads == 0) (malformed "no PT_LOAD segments")
  sorted ← sort_loads phdrs found.loads
  check_overlaps phdrs page_size sorted
  ok (record {
    ehdr = ehdr;
    phdrs = phdrs;
    loads = sorted;
    interp = found.interp;
    phdr_seg = found.phdr_seg;
    tls = found.tls;
    relro = found.relro;
    exec_stack = found.exec_stack;
  })
