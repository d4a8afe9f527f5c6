-- ===== src/Elf/Header/Bounds.antt =====
-- The widths of the header fields, and parsing within them.
use native.Mathlib.Nat.{pow-suc}
use app_elfloader.Prelude.{
  ℕ, zero, suc, ◌+◌, ◌^◌, ◌≤◌, ◌<◌, ◌≡◌, List, length, arith, not-ltb→le, length-take,
  All-get_elem?,
}
use app_elfloader.Outcome.{index, Safe, returns, Safe-bind, Safe-index, Safe-reject_if}
use app_elfloader.Word.{u64_end}
use app_elfloader.Err.{Error}
use app_elfloader.Elf.Header.{
  IsBytes, Ehdr, Phdr, ehdr_size, phdr_size, read_le, parse_ehdr, parse_phdr,
}

pub record EhdrFits (h : Ehdr) : Type 0 where
  pub ident : length h.ident ≡ 16
  pub e_type : h.e_type < 65536
  pub e_machine : h.e_machine < 65536
  pub e_version : h.e_version < 4294967296
  pub e_entry : h.e_entry < u64_end
  pub e_phoff : h.e_phoff < u64_end
  pub e_shoff : h.e_shoff < u64_end
  pub e_flags : h.e_flags < 4294967296
  pub e_ehsize : h.e_ehsize < 65536
  pub e_phentsize : h.e_phentsize < 65536
  pub e_phnum : h.e_phnum < 65536
  pub e_shentsize : h.e_shentsize < 65536
  pub e_shnum : h.e_shnum < 65536
  pub e_shstrndx : h.e_shstrndx < 65536

pub record PhdrFits (h : Phdr) : Type 0 where
  pub p_type : h.p_type < 4294967296
  pub p_flags : h.p_flags < 4294967296
  pub p_offset : h.p_offset < u64_end
  pub p_vaddr : h.p_vaddr < u64_end
  pub p_paddr : h.p_paddr < u64_end
  pub p_filesz : h.p_filesz < u64_end
  pub p_memsz : h.p_memsz < u64_end
  pub p_align : h.p_align < u64_end

module _ {ℓ} {E : Type ℓ} (b : List ℕ) (bytes : IsBytes b) where
  pub Safe-read_le :
      (n off : ℕ) → off + n ≤ length b → Safe {E = E} (λ v. v < 256 ^ n) (read_le n b off)
  unfolding read_le
  Safe-read_le zero off h = returns (omega arith)
  Safe-read_le (suc n) off h =
      Safe-bind (index b off) _
        (Safe-index b off (omega arith) (λ x e. All-get_elem? (λ v. v < 256) b off bytes e))
        λ low low_fits.
          Safe-bind (read_le n b (off + 1)) _ (Safe-read_le n (off + 1) (omega arith))
            λ high high_fits. returns (omega (arith, pow-suc 256 n))

module _ (b : List ℕ) (bytes : IsBytes b) where
  abbrev reads :
      (n off : ℕ) → off + n ≤ length b → Safe {E = Error} (λ v. v < 256 ^ n) (read_le n b off)
  reads = Safe-read_le b bytes

  -- A header of at least 56 bytes parses without a panic, each field within its width.
  pub Safe-parse_phdr : Safe PhdrFits (parse_phdr b)
  unfolding parse_phdr
  Safe-parse_phdr = Safe-bind _ _ (Safe-reject_if _ _) λ _ long.
      let room : phdr_size ≤ length b = not-ltb→le (length b) phdr_size long in
      Safe-bind _ _ (reads 4 0 (omega arith)) λ type h0.
        Safe-bind _ _ (reads 4 4 (omega arith)) λ flags h1.
          Safe-bind _ _ (reads 8 8 (omega arith)) λ offset h2.
            Safe-bind _ _ (reads 8 16 (omega arith)) λ vaddr h3.
              Safe-bind _ _ (reads 8 24 (omega arith)) λ paddr h4.
                Safe-bind _ _ (reads 8 32 (omega arith)) λ filesz h5.
                  Safe-bind _ _ (reads 8 40 (omega arith)) λ memsz h6.
                    Safe-bind _ _ (reads 8 48 (omega arith)) λ align h7. returns (record {
                      p_type = h0;
                      p_flags = h1;
                      p_offset = h2;
                      p_vaddr = h3;
                      p_paddr = h4;
                      p_filesz = h5;
                      p_memsz = h6;
                      p_align = h7;
                    })

  pub Safe-parse_ehdr : Safe EhdrFits (parse_ehdr b)
  unfolding parse_ehdr
  Safe-parse_ehdr = Safe-bind _ _ (Safe-reject_if _ _) λ _ long.
      let room : ehdr_size ≤ length b = not-ltb→le (length b) ehdr_size long in
      Safe-bind _ _ (reads 2 16 (omega arith)) λ type h0.
        Safe-bind _ _ (reads 2 18 (omega arith)) λ machine h1.
          Safe-bind _ _ (reads 4 20 (omega arith)) λ version h2.
            Safe-bind _ _ (reads 8 24 (omega arith)) λ entry h3.
              Safe-bind _ _ (reads 8 32 (omega arith)) λ phoff h4.
                Safe-bind _ _ (reads 8 40 (omega arith)) λ shoff h5.
                  Safe-bind _ _ (reads 4 48 (omega arith)) λ flags h6.
                    Safe-bind _ _ (reads 2 52 (omega arith)) λ ehsize h7.
                      Safe-bind _ _ (reads 2 54 (omega arith)) λ phentsize h8.
                        Safe-bind _ _ (reads 2 56 (omega arith)) λ phnum h9.
                          Safe-bind _ _ (reads 2 58 (omega arith)) λ shentsize h10.
                            Safe-bind _ _ (reads 2 60 (omega arith)) λ shnum h11.
                              Safe-bind _ _ (reads 2 62 (omega arith)) λ shstrndx h12.
                                returns (record {
                                  ident = omega (arith, length-take 16 b);
                                  e_type = h0;
                                  e_machine = h1;
                                  e_version = h2;
                                  e_entry = h3;
                                  e_phoff = h4;
                                  e_shoff = h5;
                                  e_flags = h6;
                                  e_ehsize = h7;
                                  e_phentsize = h8;
                                  e_phnum = h9;
                                  e_shentsize = h10;
                                  e_shnum = h11;
                                  e_shstrndx = h12;
                                })
