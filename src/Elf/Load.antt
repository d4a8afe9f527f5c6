-- ===== src/Elf/Load.antt =====
-- rust/src/elf.rs: `validate_load`, the check of one PT_LOAD entry.
use app_elfloader.Prelude.{
  ℕ, ◌+◌, ◌-◌, ◌%◌, ◌<◌, ◌≤◌, ◌≡◌, ◌⊎◌, ◌↔◌, inl, inr, refl, sym, ◌∙◌, true, false, not, ◌&&◌,
  Option, none, some, bit_and, ltb, ◌==◌, if◌then◌else◌, arith, Bool-cases, String, le→not-ltb,
  lt→ltb, not-ltb→le, ==_iff,
}
use app_elfloader.Outcome.{
  Outcome, ok, reject_if, ok_or, ◌>>=◌, ◌>>◌, Safe, returns, fails, Safe-bind, Safe-reject_if,
  Safe-ok_or, Safe-map, Safe-ok,
}
use app_elfloader.Word.{u64_end, checked_add, checked_add-eq-some, sub64, sub64-eq}
use app_elfloader.Word.Bits.{IsPowerOfTwo, IsPowerOfTwo-pos, bit_and_low}
use app_elfloader.Elf.Header.{Phdr}
use app_elfloader.Elf.Reject.{Reject, malformed}
use app_elfloader.Elf.Align.{
  is_power_of_two, is_power_of_two-IsPowerOfTwo, IsPowerOfTwo-is_power_of_two,
}

-- `if let Some(size) = file_size { if end > size { return Err(...) } }`
unfoldable pub check_end : Option ℕ → ℕ → String → Outcome Reject (Unit {0})
check_end none end s = ok tt
check_end (some size) end s = reject_if (ltb size end) (malformed s)

-- The `&&` of the source leaves `page_size - 1` alone where there are no file bytes.
unfoldable pub check_congruence : Phdr → ℕ → Outcome Reject (Unit {0})
check_congruence ph page_size = if ph.p_filesz == 0 then ok tt else do
  m ← sub64 page_size 1
  reject_if (not (bit_and ph.p_vaddr m == bit_and ph.p_offset m))
      (malformed "PT_LOAD vaddr and offset are not page-congruent")

unfoldable pub validate_load : Phdr → ℕ → Option ℕ → Outcome Reject (Unit {0})
validate_load ph page_size file_size = do
  reject_if (ltb ph.p_memsz ph.p_filesz) (malformed "PT_LOAD filesz exceeds memsz")
  reject_if (not (ph.p_align == 0) && not (is_power_of_two ph.p_align))
      (malformed "PT_LOAD alignment is not a power of two")
  reject_if (ltb page_size ph.p_align && not (is_power_of_two ph.p_align))
      (malformed "PT_LOAD alignment is not a power of two")
  mem_end ← ok_or (checked_add ph.p_vaddr ph.p_memsz) (malformed "PT_LOAD vaddr+memsz overflows")
  file_end ←
      ok_or (checked_add ph.p_offset ph.p_filesz) (malformed "PT_LOAD offset+filesz overflows")
  check_end file_size file_end "PT_LOAD extends past end of file"
  check_congruence ph page_size

-- What makes a segment loadable.
pub record ValidLoad (ph : Phdr) (page_size : ℕ) (file_size : Option ℕ) : Type 0 where
  pub file_within_memory : ph.p_filesz ≤ ph.p_memsz
  pub align_is_power : (ph.p_align ≡ 0) ⊎ IsPowerOfTwo ph.p_align
  pub memory_fits : ph.p_vaddr + ph.p_memsz < u64_end
  pub file_fits : ph.p_offset + ph.p_filesz < u64_end
  pub within_file : (size : ℕ) → file_size ≡ some size → ph.p_offset + ph.p_filesz ≤ size
  pub congruent : 0 < ph.p_filesz → ph.p_vaddr % page_size ≡ ph.p_offset % page_size

pub Safe-check_end :
    (file_size : Option ℕ) (end : ℕ) (s : String)
    → Safe (λ _. (size : ℕ) → file_size ≡ some size → end ≤ size) (check_end file_size end s)
unfolding check_end reject_if
Safe-check_end none end s = returns (λ size e. cc)
Safe-check_end (some size) end s = elim (Bool-cases (ltb size end)) [
  | inl t ↦ rw t fails
  | inr f ↦ rw f (returns (λ size' e. ground arith))
]

module _ {page_size : ℕ} (p : IsPowerOfTwo page_size) (ph : Phdr) where
  Safe-check_congruence :
      Safe
        (λ _. 0 < ph.p_filesz → ph.p_vaddr % page_size ≡ ph.p_offset % page_size)
        (check_congruence ph page_size)
  unfolding check_congruence ◌>>=◌
  Safe-check_congruence = elim (Bool-cases (ph.p_filesz == 0)) [
    | inl empty ↦ rw empty (returns (λ h. absurd (ground arith)))
    | inr some_bytes ↦
        rw (some_bytes, sub64-eq {E = Reject} page_size 1 (IsPowerOfTwo-pos p))
          (elim (Bool-cases
            (bit_and ph.p_vaddr (page_size - 1) == bit_and ph.p_offset (page_size - 1))) [
              | inl t ↦ rw t (returns (λ _. same t))
              | inr f ↦ rw f fails
            ])
  ]
    where
      same :
          (bit_and ph.p_vaddr (page_size - 1) == bit_and ph.p_offset (page_size - 1)) ≡ true
          → ph.p_vaddr % page_size ≡ ph.p_offset % page_size
      same t = sym (bit_and_low ph.p_vaddr p) ∙ (==_iff _ _).0 t ∙ bit_and_low ph.p_offset p

  -- `validate_load` never panics, and what it accepts is loadable.
  pub Safe-validate_load :
      (file_size : Option ℕ)
      → ph.p_align < u64_end
      → Safe (λ _. ValidLoad ph page_size file_size) (validate_load ph page_size file_size)
  unfolding validate_load
  Safe-validate_load file_size h = Safe-bind _ _ (Safe-reject_if _ _) λ _ within.
      Safe-bind _ _ (Safe-reject_if _ _) λ _ power. Safe-bind _ _ (Safe-reject_if _ _) λ _ _.
        Safe-bind _ _ (Safe-ok_or (checked_add ph.p_vaddr ph.p_memsz) _ (λ c e. e))
          λ mem_end memory.
            Safe-bind _ _ (Safe-ok_or (checked_add ph.p_offset ph.p_filesz) _ (λ c e. e))
              λ file_end file. Safe-bind _ _ (Safe-check_end file_size file_end _) λ _ inside.
                Safe-map Safe-check_congruence λ _ congruent. record {
                  file_within_memory = not-ltb→le _ _ within;
                  align_is_power = aligned power;
                  memory_fits = (checked_add-eq-some _ _ memory).1;
                  file_fits = (checked_add-eq-some _ _ file).1;
                  within_file = λ size e.
                      let sum = (checked_add-eq-some ph.p_offset ph.p_filesz file).0 in
                      omega (arith, inside size e);
                  congruent = congruent;
                }
    where
      aligned :
          (not (ph.p_align == 0) && not (is_power_of_two ph.p_align)) ≡ false
          → (ph.p_align ≡ 0) ⊎ IsPowerOfTwo ph.p_align
      aligned e = elim (Bool-cases (is_power_of_two ph.p_align)) [
        | inl t ↦ inr (is_power_of_two-IsPowerOfTwo ph.p_align h t)
        | inr f ↦ inl (ground arith)
      ]

  check_end_complete :
      (file_size : Option ℕ) (end : ℕ) (s : String)
      → ((size : ℕ) → file_size ≡ some size → end ≤ size)
      → check_end file_size end s ≡ ok tt
  unfolding check_end reject_if
  check_end_complete none end s h = refl
  check_end_complete (some size) end s h = rw (le→not-ltb size end (h size refl))

  check_congruence_complete :
      (0 < ph.p_filesz → ph.p_vaddr % page_size ≡ ph.p_offset % page_size)
      → check_congruence ph page_size ≡ ok tt
  unfolding check_congruence ◌>>=◌
  check_congruence_complete h = elim (Bool-cases (ph.p_filesz == 0)) [
    | inl empty ↦ rw empty
    | inr some_bytes ↦ rw (
      some_bytes,
      sub64-eq {E = Reject} page_size 1 (IsPowerOfTwo-pos p),
      same (h (ground arith)),
    )
  ]
    where
      same :
          ph.p_vaddr % page_size ≡ ph.p_offset % page_size
          → (bit_and ph.p_vaddr (page_size - 1) == bit_and ph.p_offset (page_size - 1)) ≡ true
      same e = (==_iff _ _).1 (bit_and_low ph.p_vaddr p ∙ e ∙ sym (bit_and_low ph.p_offset p))

  validate_load_complete :
      (file_size : Option ℕ)
      → ValidLoad ph page_size file_size
      → validate_load ph page_size file_size ≡ ok tt
  unfolding validate_load ◌>>=◌
  validate_load_complete file_size v =
      rw
        (
          le→not-ltb ph.p_memsz ph.p_filesz v.file_within_memory,
          power,
          power_again,
          lt→ltb _ _ v.memory_fits,
          lt→ltb _ _ v.file_fits,
          check_end_complete file_size (ph.p_offset + ph.p_filesz)
              "PT_LOAD extends past end of file" v.within_file,
        )
        (check_congruence_complete v.congruent)
    where
      power : (not (ph.p_align == 0) && not (is_power_of_two ph.p_align)) ≡ false
      power = elim v.align_is_power [
        | inl none_asked ↦ ground arith
        | inr is_power ↦ ground (arith, IsPowerOfTwo-is_power_of_two is_power)
      ]

      power_again : (ltb page_size ph.p_align && not (is_power_of_two ph.p_align)) ≡ false
      power_again = elim v.align_is_power [
        | inl none_asked ↦ ground arith
        | inr is_power ↦ ground (arith, IsPowerOfTwo-is_power_of_two is_power)
      ]

-- With a page size that is a power of two, `validate_load` accepts an entry exactly when it is
-- loadable: file bytes within the memory size, an alignment of 0 or a power of two, ends that fit a
-- u64, file bytes within a file of known size, and address and offset congruent modulo the page.
pub validate_load_exact :
    {page_size : ℕ} (p : IsPowerOfTwo page_size) (ph : Phdr) (file_size : Option ℕ)
    → ph.p_align < u64_end
    → (validate_load ph page_size file_size ≡ ok tt) ↔ ValidLoad ph page_size file_size
validate_load_exact p ph file_size h =
    (λ e. Safe-ok (Safe-validate_load p ph file_size h) e, validate_load_complete p ph file_size)
