-- ===== src/Layout/Plan/Shape.antt =====
-- The parts of a segment plan side by side: the file-backed pages, the bytes to clear at their end,
-- and the anonymous pages behind them.
use app_elfloader.Prelude.{
  ℕ, ◌+◌, ◌-◌, ◌%◌, ◌≤◌, ◌<◌, ◌≡◌, ◌⊎◌, refl, bit_and, true, ◌&&◌, Option, none, some, ltb, ◌==◌,
  arith, Bool, Bool-cases, inl, inr, ltb→lt, not-ltb→le, sym, subst, ap, ap₂, ◌∙◌, some-injective,
}
use app_elfloader.Outcome.{ok, Safe, returns, Safe-bind_is, Safe-map, ◌>>=◌}
use app_elfloader.Word.{u64_end, add64, Safe-add64}
use app_elfloader.Word.Align.{down, up, down-le, le-up, up-mod, up-le, down-mod, sub-mod_zero}
use app_elfloader.Word.Bits.{IsPowerOfTwo, IsPowerOfTwo-pos}
use app_elfloader.Elf.Header.{Phdr}
use app_elfloader.Elf.Load.{ValidLoad}
use app_elfloader.Layout.Plan.{FileMap, AnonMap, SegmentPlan, prot_write, is_some, range, range_of}
use app_elfloader.Layout.Plan.Segment.{stretch, segment_of}

abbrev pub IsFilePart : ℕ → ℕ → Option FileMap → Type 0
IsFilePart start mid file =
    ((file ≡ none) × (start ≡ mid))
    ⊎ ((f : FileMap) × (file ≡ some f) × (f.addr ≡ start) × (f.len ≡ mid - start) × (start < mid))

abbrev pub IsZeroPart : ℕ → ℕ → Option AnonMap → Type 0
IsZeroPart start mid zero_part =
    (zero_part ≡ none)
    ⊎ ((z : AnonMap) × (zero_part ≡ some z)
        × (start ≤ z.addr)
        × (z.addr < mid)
        × (z.addr + z.len ≡ mid))

abbrev pub IsAnonPart : ℕ → ℕ → Option AnonMap → Type 0
IsAnonPart mid stop anon =
    ((anon ≡ none) × (mid ≡ stop))
    ⊎ ((a : AnonMap) × (anon ≡ some a) × (a.addr ≡ mid) × (a.len ≡ stop - mid) × (mid < stop))

-- The file part takes `[start, mid)`, the clearing ends there, the anonymous part takes `[mid, stop)`.
pub record IsShape (page_size start stop : ℕ) (seg : SegmentPlan) : Type 0 where
  pub mid : ℕ
  pub start_le : start ≤ mid
  pub mid_le : mid ≤ stop
  pub start_aligned : start % page_size ≡ 0
  pub mid_aligned : mid % page_size ≡ 0
  pub stop_aligned : stop % page_size ≡ 0
  pub file_part : IsFilePart start mid seg.file
  pub zero_part : IsZeroPart start mid seg.zero_fill
  pub anon_part : IsAnonPart mid stop seg.anon
  pub window : seg.needs_write_window ≡ (is_some seg.zero_fill && bit_and seg.prot prot_write == 0)

stretch-anon : (mid stop : ℕ) → mid ≤ stop → IsAnonPart mid stop (stretch mid stop)
stretch-anon mid stop h = elim (Bool-cases (ltb mid stop)) [
  | inl t ↦ rw t (inr (_, refl, refl, refl, ltb→lt mid stop t))
  | inr f ↦ rw f (inl (refl, omega (arith, not-ltb→le mid stop f)))
]

stretch-zero :
    (start from mid : ℕ) → start ≤ from → from ≤ mid → IsZeroPart start mid (stretch from mid)
stretch-zero start from mid low h = elim (Bool-cases (ltb from mid)) [
  | inl t ↦ rw t (inr (_, refl, low, ltb→lt from mid t, omega arith))
  | inr f ↦ rw f (inl refl)
]

module _ {page_size : ℕ} (p : IsPowerOfTwo page_size) {size : Option ℕ} (bias i : ℕ) (ph : Phdr)
    (valid : ValidLoad ph page_size size) where
  pub segment_of-IsShape :
      IsShape page_size
        (down (ph.p_vaddr + bias) page_size)
        (up (ph.p_vaddr + bias + ph.p_memsz) page_size)
        (segment_of page_size bias i ph)
  segment_of-IsShape = elim (Bool-cases (ltb 0 ph.p_filesz)) [
    | inl t ↦ rw t (record {
      mid = file_up;
      start_le = omega (arith, low, le-up page_size pos (v + ph.p_filesz));
      mid_le = ups;
      start_aligned = down-mod page_size pos v;
      mid_aligned = up-mod page_size pos (v + ph.p_filesz);
      stop_aligned = up-mod page_size pos (v + ph.p_memsz);
      file_part = inr (
        _,
        refl,
        refl,
        refl,
        omega (arith, low, le-up page_size pos (v + ph.p_filesz), ltb→lt 0 ph.p_filesz t),
      );
      zero_part =
          stretch-zero (down v page_size) (v + ph.p_filesz) file_up (omega (arith, low))
            (le-up page_size pos (v + ph.p_filesz));
      anon_part = stretch-anon file_up mem_up ups;
      window = refl;
    })
    | inr f ↦ rw f (record {
      mid = down v page_size;
      start_le = omega arith;
      mid_le = omega (arith, low, le-up page_size pos (v + ph.p_memsz));
      start_aligned = down-mod page_size pos v;
      mid_aligned = down-mod page_size pos v;
      stop_aligned = up-mod page_size pos (v + ph.p_memsz);
      file_part = inl (refl, refl);
      zero_part = inl refl;
      anon_part =
          stretch-anon (down v page_size) mem_up
            (omega (arith, low, le-up page_size pos (v + ph.p_memsz)));
      window = refl;
    })
  ]
    where
      pos : 0 < page_size
      pos = IsPowerOfTwo-pos p

      v : ℕ
      v = ph.p_vaddr + bias

      file_up : ℕ
      file_up = up (v + ph.p_filesz) page_size

      mem_up : ℕ
      mem_up = up (v + ph.p_memsz) page_size

      low : down v page_size ≤ v
      low = down-le page_size pos v

      ups : file_up ≤ mem_up
      ups =
          up-le page_size pos mem_up (v + ph.p_filesz) (up-mod page_size pos (v + ph.p_memsz))
            (omega (arith, valid.file_within_memory, le-up page_size pos (v + ph.p_memsz)))

-- Whole pages of `[start, stop)`.
abbrev pub PagesIn : ℕ → ℕ → ℕ → ℕ → ℕ → Type 0
PagesIn page start stop addr len =
    (addr % page ≡ 0) × (len % page ≡ 0) × (start ≤ addr) × (addr + len ≤ stop)

-- Where the parts lie.
module _ {page_size start stop : ℕ} {seg : SegmentPlan} (shape : IsShape page_size start stop seg)
    (pos : 0 < page_size) where
  pub file-PagesIn : (f : FileMap) → seg.file ≡ some f → PagesIn page_size start stop f.addr f.len
  file-PagesIn f e = elim (shape.file_part) [
    | inl (nothing, _) ↦ cc
    | inr (g, has, at, len, _) ↦
        subst (λ (x : FileMap). PagesIn page_size start stop x.addr x.len)
          (some-injective g f (sym has ∙ e))
          (
            ap (λ (t : ℕ). t % page_size) at ∙ shape.start_aligned,
            ap (λ (t : ℕ). t % page_size) len
                ∙ sub-mod_zero page_size pos shape.mid start shape.mid_aligned shape.start_aligned,
            omega arith,
            omega (arith, shape.mid_le, shape.start_le),
          )
  ]

  pub anon-PagesIn : (a : AnonMap) → seg.anon ≡ some a → PagesIn page_size start stop a.addr a.len
  anon-PagesIn a e = elim (shape.anon_part) [
    | inl (nothing, _) ↦ cc
    | inr (g, has, at, len, _) ↦
        subst (λ (x : AnonMap). PagesIn page_size start stop x.addr x.len)
          (some-injective g a (sym has ∙ e))
          (
            ap (λ (t : ℕ). t % page_size) at ∙ shape.mid_aligned,
            ap (λ (t : ℕ). t % page_size) len
                ∙ sub-mod_zero page_size pos stop shape.mid shape.stop_aligned shape.mid_aligned,
            omega (arith, shape.start_le),
            omega (arith, shape.mid_le),
          )
  ]

  pub zero_fill-range :
      (z : AnonMap) → seg.zero_fill ≡ some z → (start ≤ z.addr) × (z.addr + z.len ≤ stop)
  zero_fill-range z e = elim (shape.zero_part) [
    | inl nothing ↦ cc
    | inr (g, has, from, _, ends) ↦
        subst (λ (x : AnonMap). (start ≤ x.addr) × (x.addr + x.len ≤ stop))
          (some-injective g z (sym has ∙ e)) (from, omega (arith, shape.mid_le))
  ]

-- The range of a segment: its pages, or nothing at 0 where it has none.
pub Safe-range {ℓ} :
    {E : Type ℓ} {page_size start stop : ℕ} (seg : SegmentPlan)
    → IsShape page_size start stop seg
    → stop < u64_end
    → Safe {E = E} (λ r. (r ≡ (start, stop)) ⊎ ((r ≡ (0, 0)) × (start ≡ stop))) (range seg)
unfolding range range_of
Safe-range {E = E} {start = start} {stop} seg shape fits = elim (shape.file_part) [
  | inl (no_file, empty) ↦ elim (shape.anon_part) [
    | inl (no_anon, empty') ↦ rw no_file (rw no_anon (returns (inr (refl, empty ∙ empty'))))
    | inr (a, has_anon, at, len, more) ↦
        rw no_file (rw has_anon (runs_to a.addr a.len a.addr (omega arith) (omega arith)))
  ]
  | inr (f, has_file, at, len, more) ↦ elim (shape.anon_part) [
    | inl (no_anon, empty') ↦
        rw has_file (rw no_anon (runs_to f.addr f.len f.addr at (omega arith)))
    | inr (a, has_anon, at', len', more') ↦
        rw has_file (rw has_anon (runs_to a.addr a.len f.addr at (omega arith)))
  ]
]
  where
    Result : ℕ × ℕ → Type 0
    Result r = (r ≡ (start, stop)) ⊎ ((r ≡ (0, 0)) × (start ≡ stop))

    runs_to :
        (addr len first : ℕ)
        → first ≡ start
        → addr + len ≡ stop
        → Safe {E = E} Result (add64 addr len >>= λ end. ok (first, end))
    runs_to addr len first is_first is_stop =
        Safe-bind_is _ _ (Safe-add64 addr len (omega arith))
          (returns (inl (ap₂ (λ x y. (x, y)) is_first is_stop)))

-- A segment with a tail to clear has pages.
pub window_nonempty :
    {page_size start stop : ℕ} (seg : SegmentPlan)
    → IsShape page_size start stop seg
    → seg.needs_write_window ≡ true
    → start < stop
window_nonempty {start = start} {stop} seg shape window = elim (shape.zero_part) [
  | inl nothing ↦
      absurd (
        no_tail seg.zero_fill (bit_and seg.prot prot_write == 0) nothing
          (sym shape.window ∙ window))
  | inr (z, _, from, before, _) ↦ omega (arith, shape.mid_le)
]
  where
    no_tail : (z : Option AnonMap) (b : Bool) → z ≡ none → (is_some z && b) ≡ true → ⊥
    no_tail none b e h = cc
    no_tail (some z) b e h = cc

pub Safe-range_window {ℓ} :
    {E : Type ℓ} {page_size start stop : ℕ} (seg : SegmentPlan)
    → IsShape page_size start stop seg
    → stop < u64_end
    → seg.needs_write_window ≡ true
    → Safe {E = E} (λ r. r ≡ (start, stop)) (range seg)
Safe-range_window {start = start} {stop} seg shape fits window =
    Safe-map (Safe-range seg shape fits) λ r where_it_is. elim where_it_is [
      | inl there ↦ there
      | inr (_, empty) ↦ absurd (omega (arith, window_nonempty seg shape window))
    ]
