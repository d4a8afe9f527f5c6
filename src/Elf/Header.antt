-- ===== src/Elf/Header.antt =====
-- rust/src/elf.rs: constants, `Ehdr`, `Phdr` and their parsing from little-endian bytes.
pub mod Bounds
pub mod Encode
use app_elfloader.Prelude.{
  ℕ, zero, suc, ◌+◌, ◌*◌, ◌≡◌, bit_and, Bool, not, List, [], ◌∷◌, length, take, ltb, ◌==◌,
  if◌then◌else◌, All, ◌<◌,
}
use app_elfloader.Outcome.{Outcome, ok, err, index, reject_if, ◌>>=◌, ◌>>◌}
use app_elfloader.Err.{Error, enoexec}

abbrev pub ei_nident : ℕ
ei_nident = 16

abbrev pub ehdr_size : ℕ
ehdr_size = 64

abbrev pub phdr_size : ℕ
phdr_size = 56

abbrev pub elfmag : List ℕ
elfmag = 0x7f ∷ b'E' ∷ b'L' ∷ b'F' ∷ []

abbrev pub ei_class : ℕ
ei_class = 4

abbrev pub ei_data : ℕ
ei_data = 5

abbrev pub ei_version : ℕ
ei_version = 6

abbrev pub ei_osabi : ℕ
ei_osabi = 7

abbrev pub elfclass64 : ℕ
elfclass64 = 2

abbrev pub elfdata2lsb : ℕ
elfdata2lsb = 1

abbrev pub ev_current : ℕ
ev_current = 1

abbrev pub elfosabi_none : ℕ
elfosabi_none = 0

abbrev pub elfosabi_gnu : ℕ
elfosabi_gnu = 3

abbrev pub elfosabi_arm_aeabi : ℕ
elfosabi_arm_aeabi = 64

abbrev pub et_exec : ℕ
et_exec = 2

abbrev pub et_dyn : ℕ
et_dyn = 3

abbrev pub em_x86_64 : ℕ
em_x86_64 = 62

abbrev pub em_aarch64 : ℕ
em_aarch64 = 183

abbrev pub pn_xnum : ℕ
pn_xnum = 0xffff

abbrev pub pt_load : ℕ
pt_load = 1

abbrev pub pt_interp : ℕ
pt_interp = 3

abbrev pub pt_phdr : ℕ
pt_phdr = 6

abbrev pub pt_tls : ℕ
pt_tls = 7

abbrev pub pt_gnu_stack : ℕ
pt_gnu_stack = 0x6474_e551

abbrev pub pt_gnu_relro : ℕ
pt_gnu_relro = 0x6474_e552

abbrev pub pf_x : ℕ
pf_x = 1

abbrev pub pf_w : ℕ
pf_w = 2

abbrev pub pf_r : ℕ
pf_r = 4

abbrev pub interp_max : ℕ
interp_max = 4096

abbrev pub phnum_max : ℕ
phnum_max = 1024

abbrev pub IsBytes : List ℕ → Type 0
IsBytes = All (λ b. b < 256)

pub record Ehdr : Type 0 where
  pub ident : List ℕ
  pub e_type : ℕ
  pub e_machine : ℕ
  pub e_version : ℕ
  pub e_entry : ℕ
  pub e_phoff : ℕ
  pub e_shoff : ℕ
  pub e_flags : ℕ
  pub e_ehsize : ℕ
  pub e_phentsize : ℕ
  pub e_phnum : ℕ
  pub e_shentsize : ℕ
  pub e_shnum : ℕ
  pub e_shstrndx : ℕ

pub record Phdr : Type 0 where
  pub p_type : ℕ
  pub p_flags : ℕ
  pub p_offset : ℕ
  pub p_vaddr : ℕ
  pub p_paddr : ℕ
  pub p_filesz : ℕ
  pub p_memsz : ℕ
  pub p_align : ℕ

unfoldable pub is_read : Phdr → Bool
is_read ph = not (bit_and ph.p_flags pf_r == 0)

unfoldable pub is_write : Phdr → Bool
is_write ph = not (bit_and ph.p_flags pf_w == 0)

unfoldable pub is_exec : Phdr → Bool
is_exec ph = not (bit_and ph.p_flags pf_x == 0)

-- The three letters of a log line.
unfoldable pub flag_str : Phdr → List ℕ
unfolding is_read is_write is_exec
flag_str ph =
    (if is_read ph then b'r' else b'-')
    ∷ (if is_write ph then b'w' else b'-')
    ∷ (if is_exec ph then b'x' else b'-')
    ∷ []

-- `n` little-endian bytes from `off`; indexing past the end panics.
unfoldable pub read_le {ℓ} : {E : Type ℓ} → ℕ → List ℕ → ℕ → Outcome E ℕ
read_le zero b off = ok 0
read_le (suc n) b off = do low ← index b off; high ← read_le n b (off + 1); ok (low + 256 * high)

abbrev pub u16le {ℓ} : {E : Type ℓ} → List ℕ → ℕ → Outcome E ℕ
u16le b off = read_le 2 b off

abbrev pub u32le {ℓ} : {E : Type ℓ} → List ℕ → ℕ → Outcome E ℕ
u32le b off = read_le 4 b off

abbrev pub u64le {ℓ} : {E : Type ℓ} → List ℕ → ℕ → Outcome E ℕ
u64le b off = read_le 8 b off

unfoldable pub parse_ehdr : List ℕ → Outcome Error Ehdr
unfolding read_le
parse_ehdr raw = do
  reject_if (ltb (length raw) ehdr_size) enoexec
  type ← u16le raw 16
  machine ← u16le raw 18
  version ← u32le raw 20
  entry ← u64le raw 24
  phoff ← u64le raw 32
  shoff ← u64le raw 40
  flags ← u32le raw 48
  ehsize ← u16le raw 52
  phentsize ← u16le raw 54
  phnum ← u16le raw 56
  shentsize ← u16le raw 58
  shnum ← u16le raw 60
  shstrndx ← u16le raw 62
  ok (record {
    ident = take ei_nident raw;
    e_type = type;
    e_machine = machine;
    e_version = version;
    e_entry = entry;
    e_phoff = phoff;
    e_shoff = shoff;
    e_flags = flags;
    e_ehsize = ehsize;
    e_phentsize = phentsize;
    e_phnum = phnum;
    e_shentsize = shentsize;
    e_shnum = shnum;
    e_shstrndx = shstrndx;
  })

unfoldable pub parse_phdr : List ℕ → Outcome Error Phdr
unfolding read_le
parse_phdr raw = do
  reject_if (ltb (length raw) phdr_size) enoexec
  type ← u32le raw 0
  flags ← u32le raw 4
  offset ← u64le raw 8
  vaddr ← u64le raw 16
  paddr ← u64le raw 24
  filesz ← u64le raw 32
  memsz ← u64le raw 40
  align ← u64le raw 48
  ok (record {
    p_type = type;
    p_flags = flags;
    p_offset = offset;
    p_vaddr = vaddr;
    p_paddr = paddr;
    p_filesz = filesz;
    p_memsz = memsz;
    p_align = align;
  })
