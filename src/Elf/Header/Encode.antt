-- ===== src/Elf/Header/Encode.antt =====
-- The file format that `Ehdr::parse` and `Phdr::parse` read, as encoders.
use native.Mathlib.Nat.{pow-suc}
use app_elfloader.Prelude.{
  ℕ, zero, suc, ◌+◌, ◌*◌, ◌/◌, ◌%◌, ◌^◌, ◌<◌, ◌≡◌, refl, ap, ◌∙◌, List, [], ◌∷◌, ◌++◌, length,
  length-append, take, drop, ltb, le→not-ltb, arith,
}
use app_elfloader.Outcome.{ok, index, reject_if, ◌>>=◌, >>=-ok}
use app_elfloader.Err.{Error, enoexec}
use app_elfloader.Elf.Header.{Ehdr, Phdr, read_le, parse_ehdr, parse_phdr}
use app_elfloader.Elf.Header.Bounds.{EhdrFits, PhdrFits}

-- `n` bytes, the lowest first.
abbrev pub little_endian : ℕ → ℕ → List ℕ
little_endian zero v = []
little_endian (suc n) v = v % 256 ∷ little_endian n (v / 256)

abbrev pub encode_phdr : Phdr → List ℕ
encode_phdr ph =
    little_endian 4 ph.p_type
    ++ little_endian 4 ph.p_flags
    ++ little_endian 8 ph.p_offset
    ++ little_endian 8 ph.p_vaddr
    ++ little_endian 8 ph.p_paddr
    ++ little_endian 8 ph.p_filesz
    ++ little_endian 8 ph.p_memsz
    ++ little_endian 8 ph.p_align

-- The fields that follow `e_ident`.
abbrev pub encode_fields : Ehdr → List ℕ
encode_fields h =
    little_endian 2 h.e_type
    ++ little_endian 2 h.e_machine
    ++ little_endian 4 h.e_version
    ++ little_endian 8 h.e_entry
    ++ little_endian 8 h.e_phoff
    ++ little_endian 8 h.e_shoff
    ++ little_endian 4 h.e_flags
    ++ little_endian 2 h.e_ehsize
    ++ little_endian 2 h.e_phentsize
    ++ little_endian 2 h.e_phnum
    ++ little_endian 2 h.e_shentsize
    ++ little_endian 2 h.e_shnum
    ++ little_endian 2 h.e_shstrndx

abbrev pub encode_ehdr : Ehdr → List ℕ
encode_ehdr h = h.ident ++ encode_fields h

module _ {ℓ} {E : Type ℓ} where
  -- Reading skips what stands before.
  read_le-cons :
      (n : ℕ) (b : ℕ) (bs : List ℕ) (off : ℕ)
      → read_le {E = E} n (b ∷ bs) (suc off) ≡ read_le n bs off
  unfolding read_le index
  read_le-cons zero b bs off = refl
  read_le-cons (suc n) b bs off =
      ap (λ later. index bs off >>= λ low. later >>= λ high. ok (low + 256 * high))
        (ap (read_le n (b ∷ bs)) next ∙ read_le-cons n b bs (off + 1))
    where
      next : suc off + 1 ≡ suc (off + 1)
      next = omega arith

  read_le-little_endian :
      (n v : ℕ) (rest : List ℕ)
      → v < 256 ^ n
      → read_le {E = E} n (little_endian n v ++ rest) 0 ≡ ok v
  unfolding read_le ◌>>=◌
  read_le-little_endian zero v rest h = ap ok (omega arith)
  read_le-little_endian (suc n) v rest h =
      rw
        (
          read_le-cons n (v % 256) (little_endian n (v / 256) ++ rest) 0,
          read_le-little_endian n (v / 256) rest (omega (arith, pow-suc 256 n)),
        )
        (ap ok (omega arith))

  pub read_le-at :
      (pre : List ℕ) (n v : ℕ) (rest : List ℕ)
      → v < 256 ^ n
      → read_le {E = E} n (pre ++ little_endian n v ++ rest) (length pre) ≡ ok v
  read_le-at [] n v rest h = read_le-little_endian n v rest h
  read_le-at (b ∷ pre) n v rest h =
      read_le-cons n b (pre ++ little_endian n v ++ rest) (length pre) ∙ read_le-at pre n v rest h

  -- What stands before is skipped.
  read_le-append :
      (pre bs : List ℕ) (n k off : ℕ)
      → off ≡ length pre + k
      → read_le {E = E} n (pre ++ bs) off ≡ read_le n bs k
  read_le-append [] bs n k off e = ap (read_le n bs) (omega arith)
  read_le-append (b ∷ pre) bs n k zero e = absurd (omega arith)
  read_le-append (b ∷ pre) bs n k (suc off) e =
      read_le-cons n b (pre ++ bs) off ∙ read_le-append pre bs n k off (omega arith)

take-append : (xs ys : List ℕ) (n : ℕ) → n ≡ length xs → take n (xs ++ ys) ≡ xs
take-append [] ys zero e = refl
take-append [] ys (suc n) e = absurd (omega arith)
take-append (x ∷ xs) ys zero e = absurd (omega arith)
take-append (x ∷ xs) ys (suc n) e = ap (λ t. x ∷ t) (take-append xs ys n (omega arith))

encode_phdr-length : (ph : Phdr) → length (encode_phdr ph) ≡ 56
encode_phdr-length ph = refl

-- Parsing the 56 bytes of a program header gives the header back, if each field fits its width.
pub parse_phdr-encode_phdr : (ph : Phdr) → PhdrFits ph → parse_phdr (encode_phdr ph) ≡ ok ph
unfolding parse_phdr reject_if
parse_phdr-encode_phdr ph fits = >>=-ok _ _ refl (
    >>=-ok _ _ (read_le-at [] 4 ph.p_type (tail 4) fits.p_type) (
      >>=-ok _ _ (read_le-at (front 4) 4 ph.p_flags (tail 8) fits.p_flags) (
        >>=-ok _ _ (read_le-at (front 8) 8 ph.p_offset (tail 16) fits.p_offset) (
          >>=-ok _ _ (read_le-at (front 16) 8 ph.p_vaddr (tail 24) fits.p_vaddr) (
            >>=-ok _ _ (read_le-at (front 24) 8 ph.p_paddr (tail 32) fits.p_paddr) (
              >>=-ok _ _ (read_le-at (front 32) 8 ph.p_filesz (tail 40) fits.p_filesz) (
                >>=-ok _ _ (read_le-at (front 40) 8 ph.p_memsz (tail 48) fits.p_memsz)
                  (>>=-ok _ _ (read_le-at (front 48) 8 ph.p_align [] fits.p_align) refl))))))))
  where
    front : ℕ → List ℕ
    front n = take n (encode_phdr ph)

    tail : ℕ → List ℕ
    tail n = drop n (encode_phdr ph)

-- Parsing the 64 bytes of an executable header gives the header back, if it has 16 bytes of
-- identification and each field fits its width.
pub parse_ehdr-encode_ehdr : (h : Ehdr) → EhdrFits h → parse_ehdr (encode_ehdr h) ≡ ok h
unfolding parse_ehdr reject_if
parse_ehdr-encode_ehdr h fits = >>=-ok _ _ long (
    >>=-ok _ _ (field 2 0 16 (omega arith) (read_le-at [] 2 h.e_type (tail 2) fits.e_type)) (
      >>=-ok _ _
        (field 2 2 18 (omega arith) (read_le-at (front 2) 2 h.e_machine (tail 4) fits.e_machine))
        (>>=-ok _ _
          (field 4 4 20 (omega arith) (read_le-at (front 4) 4 h.e_version (tail 8) fits.e_version))
          (>>=-ok _ _
            (field 8 8 24 (omega arith) (read_le-at (front 8) 8 h.e_entry (tail 16) fits.e_entry))
            (>>=-ok _ _
              (field 8 16 32 (omega arith)
                (read_le-at (front 16) 8 h.e_phoff (tail 24) fits.e_phoff))
              (>>=-ok _ _
                (field 8 24 40 (omega arith)
                  (read_le-at (front 24) 8 h.e_shoff (tail 32) fits.e_shoff))
                (>>=-ok _ _
                  (field 4 32 48 (omega arith)
                    (read_le-at (front 32) 4 h.e_flags (tail 36) fits.e_flags))
                  (>>=-ok _ _
                    (field 2 36 52 (omega arith)
                      (read_le-at (front 36) 2 h.e_ehsize (tail 38) fits.e_ehsize))
                    (>>=-ok _ _
                      (field 2 38 54 (omega arith)
                        (read_le-at (front 38) 2 h.e_phentsize (tail 40) fits.e_phentsize))
                      (>>=-ok _ _
                        (field 2 40 56 (omega arith)
                          (read_le-at (front 40) 2 h.e_phnum (tail 42) fits.e_phnum))
                        (>>=-ok _ _
                          (field 2 42 58 (omega arith)
                            (read_le-at (front 42) 2 h.e_shentsize (tail 44) fits.e_shentsize))
                          (>>=-ok _ _
                            (field 2 44 60 (omega arith)
                              (read_le-at (front 44) 2 h.e_shnum (tail 46) fits.e_shnum))
                            (>>=-ok _ _
                              (field 2 46 62 (omega arith)
                                (read_le-at (front 46) 2 h.e_shstrndx [] fits.e_shstrndx))
                              (ap (λ i. ok (record h { ident = i }))
                                (take-append h.ident (encode_fields h) 16
                                  (omega (arith, fits.ident)))))))))))))))))
  where
    front : ℕ → List ℕ
    front n = take n (encode_fields h)

    tail : ℕ → List ℕ
    tail n = drop n (encode_fields h)

    long : reject_if (ltb (length (encode_ehdr h)) 64) enoexec ≡ ok tt
    long =
        ap (λ b. reject_if b enoexec)
          (le→not-ltb (length (encode_ehdr h)) 64
            (omega (arith, length-append h.ident (encode_fields h), fits.ident)))

    field :
        (n k off : ℕ) {v : ℕ}
        → off ≡ 16 + k
        → read_le {E = Error} n (encode_fields h) k ≡ ok v
        → read_le {E = Error} n (encode_ehdr h) off ≡ ok v
    field n k off e r =
        read_le-append h.ident (encode_fields h) n k off (omega (arith, fits.ident)) ∙ r
