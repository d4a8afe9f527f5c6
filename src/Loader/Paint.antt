-- ===== src/Loader/Paint.antt =====
-- What memory holds once `fill_mapped` has mapped a plan's segments into it.
use app_elfloader.Prelude.{
  ℕ, ◌+◌, ◌-◌, ◌≤◌, ◌<◌, ◌≡◌, ◌⊎◌, inl, inr, refl, Bool, true, false, ◌&&◌, ◌||◌, Option, none,
  some, List, [], ◌∷◌, if◌then◌else◌, arith, subst, sym, ap, ◌∙◌, zero, suc, get_elem?,
  some-injective,
}
use mathlib.Core.Bool.{false≢true}
use app_elfloader.Prelude.Int.{ℤ}
use app_elfloader.Word.Align.{down, up}
use app_elfloader.Elf.Header.{Phdr}
use app_elfloader.Layout.Plan.{FileMap, AnonMap, SegmentPlan, prot_of}
use app_elfloader.Layout.Plan.Arrange.{Arranged, Arranged-le, all_placed, followed}
use app_elfloader.Layout.Plan.InPlace.{
  IsInPlace, Content, file_byte, cleared, reserved, content, is_within, file_content,
}
use app_elfloader.Layout.Plan.Shape.{IsShape, IsFilePart, IsZeroPart, IsAnonPart}
use app_elfloader.Loader.Range.{within_outside}
use app_elfloader.Loader.Memory.{Cell, held, stored, mapped, Datum, with_prot, with_datum, within}

abbrev pub datum_in : ℤ → Content → Datum
datum_in fd (file_byte off) = mapped fd off
datum_in fd cleared = stored 0
datum_in fd reserved = stored 0

abbrev pub is_mapped : Option FileMap → ℕ → Bool
is_mapped none x = false
is_mapped (some f) x = within f.addr f.len x

-- The cell at `x` once one segment is in place, `c` being the one before.
abbrev pub paint : ℤ → SegmentPlan → ℕ → Cell → Cell
paint fd seg x c =
    if is_mapped seg.file x || is_within seg.anon x
    then held seg.prot (datum_in fd (content seg x))
    else c

-- The same for all segments, one after another.
abbrev pub paint_all : ℤ → List SegmentPlan → ℕ → Cell → Cell
paint_all fd [] x c = c
paint_all fd (seg ∷ segs) x c = paint_all fd segs x (paint fd seg x c)

-- The four steps of the loop at one address: `f`, `z`, `n` say whether it is in the file part, in the
-- part to clear, in the anonymous part; `w` is the write window and `r` that the last step covers it.
abbrev pub after_file : ℤ → ℕ → ℕ → Bool → Cell → Cell
after_file fd prot off f c = if f then held prot (mapped fd off) else c

abbrev pub after_clear : Bool → Cell → Cell
after_clear z c = if z then with_datum (stored 0) c else c

abbrev pub after_anon : ℕ → Bool → Cell → Cell
after_anon prot n c = if n then held prot (stored 0) else c

abbrev pub after_narrow : ℕ → Bool → Cell → Cell
after_narrow prot r c = if r then with_prot prot c else c

steps_paint :
    (fd : ℤ) (prot wide off : ℕ) (f z n w : Bool) (c : Cell)
    → (z ≡ true → f ≡ true)
    → after_narrow prot
        (w && (f || n))
        (after_anon prot n (after_clear z (after_file fd (if w then wide else prot) off f c)))
      ≡ (if f || n
          then held prot
              (datum_in fd (if n || z then cleared else if f then file_byte off else reserved))
          else c)
steps_paint fd prot wide off true true true true c h = refl
steps_paint fd prot wide off true true true false c h = refl
steps_paint fd prot wide off true true false true c h = refl
steps_paint fd prot wide off true true false false c h = refl
steps_paint fd prot wide off true false true true c h = refl
steps_paint fd prot wide off true false true false c h = refl
steps_paint fd prot wide off true false false true c h = refl
steps_paint fd prot wide off true false false false c h = refl
steps_paint fd prot wide off false true n w c h = absurd (grind (arith, h refl))
steps_paint fd prot wide off false false true true c h = refl
steps_paint fd prot wide off false false true false c h = refl
steps_paint fd prot wide off false false false true c h = refl
steps_paint fd prot wide off false false false false c h = refl

abbrev pub offset_in : Option FileMap → ℕ → ℕ
offset_in none x = 0
offset_in (some f) x = f.off + (x - f.addr)

file_content-eq :
    (file : Option FileMap) (x : ℕ)
    → file_content file x ≡ (if is_mapped file x then file_byte (offset_in file x) else reserved)
file_content-eq none x = refl
file_content-eq (some f) x = refl

-- The four steps leave the segment's content under its protection, provided that no byte is cleared
-- outside the file part.
pub steps-paint :
    (fd : ℤ) (seg : SegmentPlan) (wide x : ℕ) (c : Cell)
    → (is_within seg.zero_fill x ≡ true → is_mapped seg.file x ≡ true)
    → after_narrow seg.prot
        (seg.needs_write_window && (is_mapped seg.file x || is_within seg.anon x))
        (after_anon seg.prot (is_within seg.anon x) (
          after_clear (is_within seg.zero_fill x) (
            after_file fd
              (if seg.needs_write_window then wide else seg.prot)
              (offset_in seg.file x)
              (is_mapped seg.file x)
              c)))
      ≡ paint fd seg x c
steps-paint fd seg wide x c h =
    steps_paint fd seg.prot wide (offset_in seg.file x) (is_mapped seg.file x)
      (is_within seg.zero_fill x) (is_within seg.anon x) seg.needs_write_window c h
    ∙ ap
        (λ t.
          if is_mapped seg.file x || is_within seg.anon x
          then held seg.prot (
              datum_in fd
                (if is_within seg.anon x || is_within seg.zero_fill x then cleared else t))
          else c)
        (sym (file_content-eq seg.file x))

module _ {page_size start stop : ℕ} {seg : SegmentPlan}
    (shape : IsShape page_size start stop seg) where
  -- The parts cover the pages of the segment.
  pub parts_cover :
      (x : ℕ) → (is_mapped seg.file x || is_within seg.anon x) ≡ within start (stop - start) x
  parts_cover x = from seg.file seg.anon shape.file_part shape.anon_part
    where
      from :
          (file : Option FileMap) (anon : Option AnonMap)
          → IsFilePart start shape.mid file
          → IsAnonPart shape.mid stop anon
          → (is_mapped file x || is_within anon x) ≡ within start (stop - start) x
      from file anon (inl (e, h)) (inl (e', h')) = rw (e, e') (ground arith)
      from file anon (inl (e, h)) (inr (a, e', at, len, _)) = rw (e, e') (ground arith)
      from file anon (inr (f, e, at, len, _)) (inl (e', h')) =
          rw (e, e') (ground (arith, shape.start_le))
      from file anon (inr (f, e, at, len, _)) (inr (a, e', at', len', _)) =
          rw (e, e') (ground (arith, shape.start_le, shape.mid_le))

  -- What is cleared was mapped from the file.
  pub cleared-mapped : (x : ℕ) → is_within seg.zero_fill x ≡ true → is_mapped seg.file x ≡ true
  cleared-mapped x h = from seg.zero_fill seg.file shape.zero_part shape.file_part h
    where
      from :
          (zero_part : Option AnonMap) (file : Option FileMap)
          → IsZeroPart start shape.mid zero_part
          → IsFilePart start shape.mid file
          → is_within zero_part x ≡ true
          → is_mapped file x ≡ true
      from zero_part file (inl e) q h = absurd (false≢true (sym (ap (λ o. is_within o x) e) ∙ h))
      from zero_part file (inr (z, e, low, before, ends)) (inl (e', q)) h = absurd (omega arith)
      from zero_part file (inr (z, e, low, before, ends)) (inr (f, e', at, len, _)) h =
          rw e' (ground (arith, sym (ap (λ o. is_within o x) e) ∙ h))

  -- Outside its pages a segment has no part.
  pub no_part :
      (x : ℕ)
      → (x < start) ⊎ (stop ≤ x)
      → (is_mapped seg.file x ≡ false)
        × (is_within seg.zero_fill x ≡ false)
        × (is_within seg.anon x ≡ false)
  no_part x h =
      let covered : (is_mapped seg.file x || is_within seg.anon x) ≡ false =
        parts_cover x
        ∙ within_outside start stop start (stop - start) x (omega arith)
            (omega (arith, shape.start_le, shape.mid_le)) h in
      neither (is_mapped seg.file x) (is_within seg.zero_fill x) (is_within seg.anon x) covered
        (cleared-mapped x)
    where
      neither :
          (f z n : Bool)
          → (f || n) ≡ false
          → (z ≡ true → f ≡ true)
          → (f ≡ false) × (z ≡ false) × (n ≡ false)
      neither true z n h k = cc
      neither false true n h k = absurd (false≢true (k refl))
      neither false false true h k = cc
      neither false false false h k = (refl, refl, refl)

  -- Where a segment has pages, it decides what stands there.
  pub paint-inside :
      (fd : ℤ) (x : ℕ) (c : Cell)
      → start ≤ x
      → x < stop
      → paint fd seg x c ≡ held seg.prot (datum_in fd (content seg x))
  paint-inside fd x c low high =
      ap (λ b. if b then held seg.prot (datum_in fd (content seg x)) else c)
        (parts_cover x ∙ covered)
    where
      covered : within start (stop - start) x ≡ true
      covered = ground arith

  pub paint-outside : (fd : ℤ) (x : ℕ) (c : Cell) → (x < start) ⊎ (stop ≤ x) → paint fd seg x c ≡ c
  paint-outside fd x c h =
      let (no_file, _, no_anon) = no_part x h in
      ap (λ b. if b then held seg.prot (datum_in fd (content seg x)) else c)
        (ap (λ b. b || is_within seg.anon x) no_file ∙ no_anon)

-- What memory holds at the segments of an arranged plan.
module _ {phdrs : List Phdr} {page_size bias end : ℕ} (fd : ℤ) where
  pub paint_all-outside :
      {from : ℕ} {is : List ℕ} {segs : List SegmentPlan}
      → Arranged phdrs page_size bias end from is segs
      → (x : ℕ) (c : Cell) → (x < from) ⊎ (end ≤ x)
      → paint_all fd segs x c ≡ c
  paint_all-outside (all_placed h) x c outside = refl
  paint_all-outside (followed {segs = segs} s h rest) x c outside =
      let below = Arranged-le rest in
      ap (λ t. paint_all fd segs x t) (paint-outside s.shape fd x c (omega (arith, outside, below)))
      ∙ paint_all-outside rest x c (omega (arith, outside, s.shape.start_le, s.shape.mid_le))

  pub paint_all-inside :
      {from : ℕ} {is : List ℕ} {segs : List SegmentPlan}
      → Arranged phdrs page_size bias end from is segs
      → (n i x : ℕ) (ph : Phdr) (c : Cell) → get_elem? is n ≡ some i
      → get_elem? phdrs i ≡ some ph
      → down (ph.p_vaddr + bias) page_size ≤ x
      → x < up (ph.p_vaddr + bias + ph.p_memsz) page_size
      → (seg : SegmentPlan) × IsInPlace page_size (ph.p_vaddr + bias) ph seg
        × (paint_all fd segs x c ≡ held (prot_of ph) (datum_in fd (content seg x)))
  paint_all-inside (all_placed h) n i x ph c at is_ph low high = cc
  paint_all-inside (followed {i = j} {is} {seg} {segs} s h rest) zero i x ph c at is_ph low high =
      let same_index : j ≡ i = some-injective j i at in
      let same : s.entry ≡ ph =
        some-injective s.entry ph
          (sym s.at ∙ ap (λ (k : ℕ). get_elem? phdrs k) same_index ∙ is_ph) in
      (
        seg,
        subst (λ e. IsInPlace page_size (e.p_vaddr + bias) e seg) same s.in_place,
        paint_all-outside rest x _ (
              inl (
                subst (λ (e : Phdr). x < up (e.p_vaddr + bias + e.p_memsz) page_size) (sym same)
                  high))
            ∙ paint-inside s.shape fd x c
                (subst (λ (e : Phdr). down (e.p_vaddr + bias) page_size ≤ x) (sym same) low)
                (subst (λ (e : Phdr). x < up (e.p_vaddr + bias + e.p_memsz) page_size) (sym same)
                  high)
            ∙ ap (λ p. held p (datum_in fd (content seg x))) (s.prot ∙ ap prot_of same),
      )
  paint_all-inside (followed s h rest) (suc n) i x ph c at is_ph low high =
      paint_all-inside rest n i x ph _ at is_ph low high

  -- Pages of no load stay as they were.
  pub paint_all-gap :
      {from : ℕ} {is : List ℕ} {segs : List SegmentPlan}
      → Arranged phdrs page_size bias end from is segs
      → (x : ℕ) (c : Cell)
      → ((n i : ℕ) (ph : Phdr)
          → get_elem? is n ≡ some i
          → get_elem? phdrs i ≡ some ph
          → (x < down (ph.p_vaddr + bias) page_size)
            ⊎ (up (ph.p_vaddr + bias + ph.p_memsz) page_size ≤ x))
      → paint_all fd segs x c ≡ c
  paint_all-gap (all_placed h) x c none_here = refl
  paint_all-gap (followed {i = i} {segs = segs} s h rest) x c none_here =
      ap (λ t. paint_all fd segs x t)
        (paint-outside s.shape fd x c (none_here 0 i s.entry refl s.at))
      ∙ paint_all-gap rest x c (λ n. none_here (suc n))
