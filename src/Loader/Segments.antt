-- ===== src/Loader/Segments.antt =====
-- The loop of `fill_mapped` over the segments, on an address space that keeps the laws.
use app_elfloader.Prelude.{
  ℕ, ◌≤◌, ◌<◌, ◌≡◌, ◌⊎◌, inl, inr, refl, bit_and, bit_or, true, false, ◌&&◌, ◌||◌, some, List, ◌==◌,
  if◌then◌else◌, arith, Bool-cases, subst, sym, ap, ◌∙◌, get_elem?_bound, length,
}
use app_elfloader.Prelude.Int.{ℤ}
use app_elfloader.Outcome.{Safe-index_at}
use app_elfloader.Action.{Post, Post-map, Post-bind, Post-done, Post-pure}
use app_elfloader.Word.{u64_end}
use app_elfloader.Elf.Image.{Image}
use app_elfloader.Layout.Plan.{AnonMap, SegmentPlan, prot_write, is_some}
use app_elfloader.Layout.Plan.InPlace.{is_within}
use app_elfloader.Layout.Plan.Shape.{
  IsShape, file-PagesIn, anon-PagesIn, zero_fill-range, Safe-range,
}
use app_elfloader.Layout.Prot.{prot_of_wide}
use app_elfloader.Layout.Plan.Arrange.{Arranged, Arranged-le, all_placed, followed}
use app_elfloader.Loader.{Vm, fill_segment, fill_segments}
use app_elfloader.Loader.Memory.{Cell, IsVm, AllWritable, is_writable}
use app_elfloader.Loader.Paint.{
  paint, paint_all, is_mapped, offset_in, after_file, after_clear, after_anon, after_narrow,
  steps-paint, cleared-mapped, no_part, paint-outside,
}
use app_elfloader.Loader.Fill.{Beyond, Post-map_file, Post-zero_tail, Post-map_anon, Post-narrow}

module _ {S : Type 0} {vm : Vm S} {view : S → ℕ → Cell} (laws : IsVm vm view)
    (pos : 0 < vm.page_size) (image : Image) (fd : ℤ) where
  module _ {start stop : ℕ} {seg : SegmentPlan} (shape : IsShape vm.page_size start stop seg)
      (fits : stop < u64_end) (entry_at : seg.idx < length image.phdrs)
      (wide : (bit_and (bit_or seg.prot prot_write) prot_write == 0) ≡ false) where
    abbrev wide_prot : ℕ
    wide_prot = if seg.needs_write_window then bit_or seg.prot prot_write else seg.prot

    abbrev file_step : (ℕ → Cell) → ℕ → Cell
    file_step v x = after_file fd wide_prot (offset_in seg.file x) (is_mapped seg.file x) (v x)

    -- What is to be cleared is writable, through the window where need be.
    writable_tail :
        (v v' : ℕ → Cell)
        → ((x : ℕ) → v' x ≡ file_step v x)
        → (z : AnonMap) → seg.zero_fill ≡ some z
        → AllWritable v' z.addr z.len
    writable_tail v v' e z is_z x h =
        let inside : is_within seg.zero_fill x ≡ true = ap (λ o. is_within o x) is_z ∙ h in
        let in_file : is_mapped seg.file x ≡ true = cleared-mapped shape x inside in
        ap is_writable
          (e x ∙ ap (λ b. after_file fd wide_prot (offset_in seg.file x) b (v x)) in_file)
        ∙ ap (λ b. if b then false else true) (writable_prot (has_tail inside))
      where
        has_tail : is_within seg.zero_fill x ≡ true → is_some seg.zero_fill ≡ true
        has_tail inside = ap is_some is_z

        writable_prot : is_some seg.zero_fill ≡ true → (bit_and wide_prot prot_write == 0) ≡ false
        writable_prot tail = elim (Bool-cases seg.needs_write_window) [
          | inl opened ↦
              ap (λ b. bit_and (if b then bit_or seg.prot prot_write else seg.prot) prot_write == 0)
                opened
              ∙ wide
          | inr closed ↦
              ap (λ b. bit_and (if b then bit_or seg.prot prot_write else seg.prot) prot_write == 0)
                closed
              ∙ sym (ap (λ b. b && bit_and seg.prot prot_write == 0) tail)
              ∙ sym shape.window
              ∙ closed
        ]

    keeps_file : (v : ℕ → Cell) (x : ℕ) → (x < start) ⊎ (stop ≤ x) → file_step v x ≡ v x
    keeps_file v x h =
        ap (λ b. after_file fd wide_prot (offset_in seg.file x) b (v x)) (no_part shape x h).0

    keeps_clear :
        (v : ℕ → Cell) (x : ℕ)
        → (x < start) ⊎ (stop ≤ x)
        → after_clear (is_within seg.zero_fill x) (v x) ≡ v x
    keeps_clear v x h = ap (λ b. after_clear b (v x)) (no_part shape x h).1

    keeps_anon :
        (v : ℕ → Cell) (x : ℕ)
        → (x < start) ⊎ (stop ≤ x)
        → after_anon seg.prot (is_within seg.anon x) (v x) ≡ v x
    keeps_anon v x h = ap (λ b. after_anon seg.prot b (v x)) (no_part shape x h).2

    combine :
        (v v1 v2 v3 : ℕ → Cell) (x : ℕ)
        → ((x : ℕ) → v1 x ≡ file_step v x)
        → ((x : ℕ) → v2 x ≡ after_clear (is_within seg.zero_fill x) (v1 x))
        → ((x : ℕ) → v3 x ≡ after_anon seg.prot (is_within seg.anon x) (v2 x))
        → after_narrow seg.prot
            (seg.needs_write_window && (is_mapped seg.file x || is_within seg.anon x))
            (v3 x)
          ≡ paint fd seg x (v x)
    combine v v1 v2 v3 x e1 e2 e3 =
        ap
          (λ c.
            after_narrow seg.prot
              (seg.needs_write_window && (is_mapped seg.file x || is_within seg.anon x)) c)
          (e3 x
            ∙ ap (λ c. after_anon seg.prot (is_within seg.anon x) c)
                (e2 x ∙ ap (λ c. after_clear (is_within seg.zero_fill x) c) (e1 x)))
        ∙ steps-paint fd seg (bit_or seg.prot prot_write) x (v x) (cleared-mapped shape x)

    Post-fill_segment :
        (s : S)
        → Post
            (λ _ s'. (x : ℕ) → view s' x ≡ paint fd seg x (view s x))
            (λ e s'. Beyond start stop (view s) (view s'))
            (fill_segment vm image fd seg s)
    unfolding fill_segment
    Post-fill_segment s =
        Post-pure _ _ s (Safe-index_at image.phdrs seg.idx entry_at)
          (λ ph _.
            Post-pure _ _ s (Safe-range seg shape fits)
              (λ shown _.
                Post-bind _ _ s
                  (Post-map_file laws start stop fd _ _ seg.file s (file-PagesIn shape pos))
                  (λ _ s1 e1.
                    Post-bind _ _ s1
                      (Post-zero_tail laws start stop seg.zero_fill s1 (λ z is_z. (
                        (zero_fill-range shape pos z is_z).0,
                        (zero_fill-range shape pos z is_z).1,
                        writable_tail (view s) (view s1) e1 z is_z,
                      )))
                      (λ _ s2 e2.
                        Post-bind _ _ s2
                          (Post-map_anon laws start stop seg.prot seg.anon s2
                            (anon-PagesIn shape pos))
                          (λ _ s3 e3.
                            Post-map (Post-narrow laws start stop shape s3 fits pos)
                              (λ _ s4 e4 x.
                                e4 x ∙ combine (view s) (view s1) (view s2) (view s3) x e1 e2 e3)
                              (λ e s4 same x h.
                                same x h
                                ∙ e3 x
                                ∙ keeps_anon (view s2) x h
                                ∙ e2 x
                                ∙ keeps_clear (view s1) x h
                                ∙ e1 x
                                ∙ keeps_file (view s) x h))
                          (λ e s3 same x h.
                            same x h
                            ∙ e2 x
                            ∙ keeps_clear (view s1) x h
                            ∙ e1 x
                            ∙ keeps_file (view s) x h))
                      (λ e s2 same x h. same x h ∙ e1 x ∙ keeps_file (view s) x h))
                  (λ e s1 same. same))
              (λ e x _. refl))
          (λ e x _. refl)

  module _ {bias end : ℕ} (fits : end < u64_end) where
    pub Post-fill_segments :
        {from : ℕ} {is : List ℕ} {segs : List SegmentPlan} (s : S)
        → Arranged image.phdrs vm.page_size bias end from is segs
        → Post
            (λ _ s'. (x : ℕ) → view s' x ≡ paint_all fd segs x (view s x))
            (λ e s'. Beyond from end (view s) (view s'))
            (fill_segments vm image fd segs s)
    unfolding fill_segments
    Post-fill_segments s (all_placed h) = Post-done tt s (λ x. refl)
    Post-fill_segments {from} s (followed {i = i} {is} {seg} {segs} l h rest) =
        let below = Arranged-le rest in
        Post-bind _ _ s
          (Post-fill_segment l.shape (omega arith)
            (subst (λ j. j < length image.phdrs) (sym l.idx) (get_elem?_bound _ _ l.at))
            (ap (λ p. bit_and (bit_or p prot_write) prot_write == 0) l.prot ∙ prot_of_wide l.entry)
            s)
          (λ _ s1 painted.
            Post-map (Post-fill_segments s1 rest)
              (λ _ s2 e x. e x ∙ ap (λ c. paint_all fd segs x c) (painted x))
              (λ e s2 same x outside.
                same x (omega (arith, outside, l.shape.start_le, l.shape.mid_le))
                ∙ painted x
                ∙ paint-outside l.shape fd x (view s x) (omega (arith, below, outside))))
          (λ e s1 same x outside. same x (omega (arith, below, outside)))
