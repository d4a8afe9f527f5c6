-- ===== src/Layout/Plan/Segment.antt =====
-- What the plan of one segment is.
use app_elfloader.Prelude.{
  ℕ, ◌+◌, ◌-◌, ◌%◌, ◌<◌, ◌≡◌, refl, ◌∙◌, bit_and, ◌&&◌, Option, none, some, ltb, ◌==◌,
  if◌then◌else◌, arith, Bool-cases, inl, inr, ltb→lt,
}
use app_elfloader.Outcome.{Safe, returns, Safe-bind_is, Safe-ok_or, Safe-map}
use app_elfloader.Word.{u64_end, checked_add, checked_add-eq-some, Safe-add64, Safe-sub64}
use app_elfloader.Word.Align.{down, up, le-up, add-mod_multiple}
use app_elfloader.Word.Bits.{IsPowerOfTwo, IsPowerOfTwo-pos}
use app_elfloader.Elf.Header.{Phdr}
use app_elfloader.Elf.Load.{ValidLoad}
use app_elfloader.Elf.Align.{Safe-align_down, Safe-round}
use app_elfloader.Layout.Plan.{
  AnonMap, SegmentPlan, FilePart, prot_of, prot_write, is_some, gap, file_part, plan_segment,
}

-- `[start, end)`, unless it is empty.
abbrev pub stretch : ℕ → ℕ → Option AnonMap
stretch start end =
    if ltb start end then some (record { addr = start; len = end - start }) else none

-- The parts of a segment at address `v`, which the program header puts at `v` less the bias.
abbrev pub part_of : ℕ → Phdr → ℕ → FilePart
part_of page_size ph v =
    if ltb 0 ph.p_filesz
    then record {
      file = some (record {
        addr = down v page_size;
        len = up (v + ph.p_filesz) page_size - down v page_size;
        off = ph.p_offset - v % page_size;
      });
      zero_fill = stretch (v + ph.p_filesz) (up (v + ph.p_filesz) page_size);
      file_end = up (v + ph.p_filesz) page_size;
    }
    else record { file = none; zero_fill = none; file_end = down v page_size }

abbrev pub segment_of : ℕ → ℕ → ℕ → Phdr → SegmentPlan
segment_of page_size bias i ph =
    let v = ph.p_vaddr + bias in
    let part = part_of page_size ph v in
    record {
      idx = i;
      file = part.file;
      zero_fill = part.zero_fill;
      anon = stretch part.file_end (up (v + ph.p_memsz) page_size);
      prot = prot_of ph;
      needs_write_window = is_some part.zero_fill && bit_and (prot_of ph) prot_write == 0;
    }

Safe-gap : (start end : ℕ) → Safe (λ o. o ≡ stretch start end) (gap start end)
unfolding gap
Safe-gap start end = elim (Bool-cases (ltb start end)) [
  | inl t ↦
      rw t
        (Safe-bind_is _ _ (Safe-sub64 end start (omega (arith, ltb→lt start end t))) (returns refl))
  | inr f ↦ rw f (returns refl)
]

module _ {page_size : ℕ} (p : IsPowerOfTwo page_size) (ph : Phdr) where
  Safe-file_part :
      (v : ℕ)
      → v + ph.p_filesz < u64_end
      → (0 < ph.p_filesz → v % page_size ≡ ph.p_offset % page_size)
      → Safe
          (λ part. part ≡ part_of page_size ph v)
          (file_part page_size ph v (down v page_size) (v - down v page_size))
  unfolding file_part
  Safe-file_part v fits congruent =
      let pos = IsPowerOfTwo-pos p in
      elim (Bool-cases (ltb 0 ph.p_filesz)) [
        | inl t ↦ rw t (
            Safe-bind_is _ _ (Safe-add64 v ph.p_filesz fits) (
              Safe-round p (v + ph.p_filesz) _ _ λ _.
                Safe-bind_is _ _
                  (Safe-sub64 (up (v + ph.p_filesz) page_size) (down v page_size)
                    (omega (arith, le-up page_size pos (v + ph.p_filesz))))
                  (Safe-bind_is _ _
                    (Safe-map
                      (Safe-sub64 ph.p_offset (v - down v page_size)
                        (omega (arith, congruent (ltb→lt 0 ph.p_filesz t))))
                      (λ off e. e ∙ remainder))
                    (Safe-bind_is _ _ (Safe-gap (v + ph.p_filesz) (up (v + ph.p_filesz) page_size))
                      (returns refl)))))
        | inr f ↦ rw f (returns refl)
      ]
    where
      remainder : ph.p_offset - (v - down v page_size) ≡ ph.p_offset - v % page_size
      remainder = omega arith

  -- What `plan_segment` returns, when the segment's end fits the address space.
  pub Safe-plan_segment :
      (bias i : ℕ) {size : Option ℕ}
      → ValidLoad ph page_size size
      → bias % page_size ≡ 0
      → ph.p_vaddr + bias + ph.p_memsz < u64_end
      → Safe (λ seg. seg ≡ segment_of page_size bias i ph) (plan_segment page_size bias i ph)
  unfolding plan_segment
  Safe-plan_segment bias i valid aligned fits =
      Safe-bind_is _ _
        (Safe-ok_or (checked_add ph.p_vaddr bias) _ (λ c e. (checked_add-eq-some _ _ e).0))
        (Safe-bind_is _ _ (Safe-align_down p v (omega arith)) (
          Safe-bind_is _ _ (Safe-sub64 v (down v page_size) (omega arith)) (
            Safe-bind_is _ _ (Safe-add64 v ph.p_memsz fits) (
              Safe-round p (v + ph.p_memsz) _ _ λ _.
                Safe-bind_is _ _
                  (Safe-file_part v (omega (arith, valid.file_within_memory)) (λ h.
                    add-mod_multiple page_size (IsPowerOfTwo-pos p) ph.p_vaddr bias aligned
                    ∙ valid.congruent h))
                  (Safe-bind_is _ _
                    (Safe-gap (part_of page_size ph v).file_end (up (v + ph.p_memsz) page_size))
                    (returns refl))))))
    where
      v : ℕ
      v = ph.p_vaddr + bias
