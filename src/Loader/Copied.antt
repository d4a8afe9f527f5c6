-- ===== src/Loader/Copied.antt =====
-- The segments of `fill_copied`, one after another.
use app_elfloader.Prelude.{
  ℕ, zero, suc, ◌+◌, ◌-◌, ◌≤◌, ◌<◌, ◌≡◌, inl, refl, true, false, Option, some, some-injective, List,
  ◌∷◌, get_elem?, get_elem?_bound, ltb, if◌then◌else◌, arith, subst, sym, ap, ap₂, ◌∙◌, All,
  not-ltb→le,
}
use app_elfloader.Outcome.{Safe-index, Safe-ok_or}
use app_elfloader.Err.{enomem}
use app_elfloader.Action.{Post, Post-map, Post-bind, Post-done, Post-if, Post-pure, Post-pure_is}
use app_elfloader.Word.{u64_end, Safe-add64, Safe-sub64}
use app_elfloader.Word.Align.{down, up, down-le, le-up}
use app_elfloader.Word.Bits.{IsPowerOfTwo, IsPowerOfTwo-pos}
use app_elfloader.Elf.Header.{Phdr}
use app_elfloader.Elf.Source.{ImageSource}
use app_elfloader.Elf.Align.{Safe-align_up}
use app_elfloader.Elf.Image.{Image}
use app_elfloader.Elf.Image.Classify.{IsLoad}
use app_elfloader.Layout.Plan.{SegmentPlan}
use app_elfloader.Layout.Plan.Arrange.{Arranged, Arranged-le, IsPlanOf, all_placed, followed}
use app_elfloader.Loader.{Vm, copy_segment, copy_segments}
use app_elfloader.Loader.Range.{within-part, within_outside, AllWritable-part}
use app_elfloader.Loader.Memory.{
  Cell, IsVm, AllWritable, within, stored, is_writable, with_datum, datum,
}
use app_elfloader.Loader.Fill.{Beyond}
use app_elfloader.Loader.Copy.{IsFile, stored_from, Post-copy_chunks}
use app_elfloader.Loader.CopiedCell.{
  copied_cell, stored_from-writable, copied_cell-writable, copied_cell-outside, copied_cell-file,
  copied_cell-zeros,
}

checked :
    (phdrs : List Phdr) {page_size bias : ℕ} (size : Option ℕ) (i : ℕ) {seg : SegmentPlan}
    (l : IsPlanOf phdrs page_size bias i seg)
    → IsLoad phdrs page_size size i
    → (l.entry.p_filesz ≤ l.entry.p_memsz) × (l.entry.p_offset + l.entry.p_filesz < u64_end)
checked phdrs size i l load =
    subst (λ (e : Phdr). (e.p_filesz ≤ e.p_memsz) × (e.p_offset + e.p_filesz < u64_end))
      (some-injective load.entry l.entry (sym load.at ∙ l.at))
      (load.valid.file_within_memory, load.valid.file_fits)

module _ {S : Type 0} {vm : Vm S} {view : S → ℕ → Cell} (laws : IsVm vm view)
    (p : IsPowerOfTwo vm.page_size) {src : ImageSource} {contents : ℕ → ℕ}
    (file : IsFile src contents) (image : Image) (bias : ℕ) where
  Post-copy_segment :
      (i : ℕ) (seg : SegmentPlan) (l : IsPlanOf image.phdrs vm.page_size bias i seg) (s : S)
      → l.entry.p_filesz ≤ l.entry.p_memsz
      → l.entry.p_offset + l.entry.p_filesz < u64_end
      → up (l.entry.p_vaddr + bias + l.entry.p_memsz) vm.page_size < u64_end
      → AllWritable
          (view s)
          (l.entry.p_vaddr + bias)
          (up (l.entry.p_vaddr + bias + l.entry.p_memsz) vm.page_size - (l.entry.p_vaddr + bias))
      → Post
          (λ _ s'.
            (x : ℕ)
            → view s' x
              ≡ copied_cell contents l.entry
                  (l.entry.p_vaddr + bias)
                  (up (l.entry.p_vaddr + bias + l.entry.p_memsz) vm.page_size)
                  x
                  (view s x))
          (λ e s'.
            Beyond
              (l.entry.p_vaddr + bias)
              (up (l.entry.p_vaddr + bias + l.entry.p_memsz) vm.page_size)
              (view s)
              (view s'))
          (copy_segment vm image src bias seg s)
  unfolding copy_segment
  Post-copy_segment i seg l s file_size offset_fits fits writable =
      Post-pure_is _ _ s
        (Safe-index image.phdrs seg.idx (get_elem?_bound image.phdrs seg.idx entry_at)
          (λ x e. some-injective x l.entry (sym e ∙ entry_at)))
        (Post-pure_is _ _ s (Safe-add64 ph.p_vaddr bias (omega (arith, high)))
          (Post-bind _ _ s
            (Post-copy_chunks laws file ph.p_offset v ph.p_filesz offset_fits (omega (arith, high))
              ph.p_filesz 0 s (omega arith) (omega arith)
              (AllWritable-part (view s) v (stop - v) (v + 0) (ph.p_filesz - 0) (omega arith)
                (omega (arith, high)) writable))
            (λ _ s1 e1.
              Post-pure_is _ _ s1 (Safe-add64 v ph.p_memsz (omega (arith, high)))
                (Post-pure _ _ s1 (Safe-align_up p (v + ph.p_memsz))
                  (λ rounded r.
                    Post-pure_is _ _ s1 (Safe-ok_or rounded enomem (λ u e. (r u e).0))
                      (Post-pure_is _ _ s1 (Safe-add64 v ph.p_filesz (omega (arith, high)))
                        (Post-if (ltb (v + ph.p_filesz) stop) _ _ s1
                          (λ t.
                            Post-pure_is _ _ s1
                              (Safe-sub64 stop (v + ph.p_filesz) (omega (arith, high)))
                              (Post-map
                                (laws.clears s1 (v + ph.p_filesz) (stop - (v + ph.p_filesz)) (λ x h.
                                  ap is_writable (stored_at s1 e1 x)
                                  ∙ stored_from-writable (λ d. contents (ph.p_offset + d)) v v
                                      ph.p_filesz x (view s x)
                                  ∙ writable x (
                                      within-part v (stop - v) (v + ph.p_filesz)
                                        (stop - (v + ph.p_filesz)) x (omega arith)
                                        (omega (arith, high)) h)))
                                (λ _ s2 e2 x.
                                  e2 x
                                  ∙ ap
                                      (λ c.
                                        if within (v + ph.p_filesz) (stop - (v + ph.p_filesz)) x
                                        then with_datum (stored 0) c
                                        else c)
                                      (stored_at s1 e1 x))
                                (λ e s2 same x off.
                                  same x (
                                    within_outside v stop (v + ph.p_filesz)
                                      (stop - (v + ph.p_filesz)) x (omega arith)
                                      (omega (arith, high)) off)
                                  ∙ kept s1 e1 x off))
                              (λ e. kept s1 e1))
                          (λ f.
                            Post-done tt s1
                              (λ x. stored_at s1 e1 x ∙ no_zeros (not-ltb→le _ _ f) x _)))
                        (λ e. kept s1 e1))
                      (λ e. kept s1 e1))
                  (λ e. kept s1 e1))
                (λ e. kept s1 e1))
            (λ e s1 same x off.
              same x
                (within_outside v stop v ph.p_filesz x (omega arith) (omega (arith, high)) off)))
          (λ e x off. refl))
        (λ e x off. refl)
    where
      entry_at : get_elem? image.phdrs seg.idx ≡ some l.entry
      entry_at = ap (λ (j : ℕ). get_elem? image.phdrs j) l.idx ∙ l.at

      ph : Phdr
      ph = l.entry

      v : ℕ
      v = ph.p_vaddr + bias

      stop : ℕ
      stop = up (v + ph.p_memsz) vm.page_size

      high : v + ph.p_memsz ≤ stop
      high = le-up vm.page_size (IsPowerOfTwo-pos p) (v + ph.p_memsz)

      kept :
          (s1 : S)
          → ((x : ℕ)
              → view s1 x
                ≡ stored_from
                    (λ d. contents (ph.p_offset + d))
                    v
                    (v + 0)
                    (ph.p_filesz - 0)
                    x
                    (view s x))
          → Beyond v stop (view s) (view s1)
      kept s1 e1 x off =
          e1 x
          ∙ ap
              (λ b.
                if b
                then with_datum (stored (contents (ph.p_offset + (x - v)))) (view s x)
                else view s x)
              (within_outside v stop (v + 0) (ph.p_filesz - 0) x (omega arith) (omega (arith, high))
                off)

      stored_at :
          (s1 : S)
          → ((x : ℕ)
              → view s1 x
                ≡ stored_from
                    (λ d. contents (ph.p_offset + d))
                    v
                    (v + 0)
                    (ph.p_filesz - 0)
                    x
                    (view s x))
          → (x : ℕ)
          → view s1 x ≡ stored_from (λ d. contents (ph.p_offset + d)) v v ph.p_filesz x (view s x)
      stored_at s1 e1 x =
          e1 x
          ∙ ap₂
              (λ (a : ℕ) (n : ℕ). stored_from (λ d. contents (ph.p_offset + d)) v a n x (view s x))
              (omega arith) (omega arith)

      no_zeros :
          stop ≤ v + ph.p_filesz
          → (x : ℕ) (c : Cell)
          → c ≡ (
              if within (v + ph.p_filesz) (stop - (v + ph.p_filesz)) x
              then with_datum (stored 0) c
              else c)
      no_zeros h x c = ap (λ b. if b then with_datum (stored 0) c else c) (sym nowhere)
        where
          nowhere : within (v + ph.p_filesz) (stop - (v + ph.p_filesz)) x ≡ false
          nowhere = ground arith

  -- What the loads `is` leave in memory.
  pub record IsCopied (from end : ℕ) (is : List ℕ) (v v' : ℕ → Cell) : Type 0 where
    pub same_writable : (x : ℕ) → is_writable (v' x) ≡ is_writable (v x)
    pub same_beyond : Beyond from end v v'
    pub shows_file :
        (n i k : ℕ) (ph : Phdr)
        → get_elem? is n ≡ some i
        → get_elem? image.phdrs i ≡ some ph
        → k < ph.p_filesz
        → datum (v' (ph.p_vaddr + bias + k)) ≡ some (stored (contents (ph.p_offset + k)))
    pub shows_zeros :
        (n i k : ℕ) (ph : Phdr)
        → get_elem? is n ≡ some i
        → get_elem? image.phdrs i ≡ some ph
        → ph.p_filesz ≤ k
        → k < ph.p_memsz
        → datum (v' (ph.p_vaddr + bias + k)) ≡ some (stored 0)

  -- A load, and those behind it.
  IsCopied-cons :
      {i : ℕ} {seg : SegmentPlan} (l : IsPlanOf image.phdrs vm.page_size bias i seg) (from end : ℕ)
      (is : List ℕ) (v v1 v2 : ℕ → Cell)
      → from ≤ down (l.entry.p_vaddr + bias) vm.page_size
      → up (l.entry.p_vaddr + bias + l.entry.p_memsz) vm.page_size ≤ end
      → l.entry.p_filesz ≤ l.entry.p_memsz
      → AllWritable v from (end - from)
      → ((x : ℕ)
          → v1 x
            ≡ copied_cell contents l.entry
                (l.entry.p_vaddr + bias)
                (up (l.entry.p_vaddr + bias + l.entry.p_memsz) vm.page_size)
                x
                (v x))
      → IsCopied (up (l.entry.p_vaddr + bias + l.entry.p_memsz) vm.page_size) end is v1 v2
      → IsCopied from end (i ∷ is) v v2
  IsCopied-cons {i} l from end is v v1 v2 above below sized writable e1 c = record {
    same_writable = λ x.
        c.same_writable x ∙ ap is_writable (e1 x) ∙ copied_cell-writable contents ph _ _ x (v x);
    same_beyond = λ x off.
        c.same_beyond x (omega (arith, off, start, stop))
        ∙ e1 x
        ∙ copied_cell-outside contents ph _ _ x (v x) (omega (arith, sized, stop))
            (omega (arith, off, start, below));
    shows_file = file_at;
    shows_zeros = zeros_at;
  }
    where
      ph : Phdr
      ph = l.entry

      start : down (ph.p_vaddr + bias) vm.page_size ≤ ph.p_vaddr + bias
      start = down-le vm.page_size (IsPowerOfTwo-pos p) (ph.p_vaddr + bias)

      stop : ph.p_vaddr + bias + ph.p_memsz ≤ up (ph.p_vaddr + bias + ph.p_memsz) vm.page_size
      stop = le-up vm.page_size (IsPowerOfTwo-pos p) (ph.p_vaddr + bias + ph.p_memsz)

      same_entry : (j : ℕ) (e : Phdr) → i ≡ j → get_elem? image.phdrs j ≡ some e → ph ≡ e
      same_entry j e same is_ph =
          some-injective ph e (sym l.at ∙ ap (λ (m : ℕ). get_elem? image.phdrs m) same ∙ is_ph)

      at_own : (k : ℕ) → k < ph.p_memsz → is_writable (v (ph.p_vaddr + bias + k)) ≡ true
      at_own k h = writable (ph.p_vaddr + bias + k) (ground (arith, above, start, stop, below))

      file_at :
          (n j k : ℕ) (e : Phdr)
          → get_elem? (i ∷ is) n ≡ some j
          → get_elem? image.phdrs j ≡ some e
          → k < e.p_filesz
          → datum (v2 (e.p_vaddr + bias + k)) ≡ some (stored (contents (e.p_offset + k)))
      file_at zero j k e nth is_ph =
          subst
            (λ (e : Phdr).
              k < e.p_filesz
              → datum (v2 (e.p_vaddr + bias + k)) ≡ some (stored (contents (e.p_offset + k))))
            (same_entry j e (some-injective i j nth) is_ph)
            (λ h.
              ap datum (
                c.same_beyond (ph.p_vaddr + bias + k) (inl (omega (arith, h, sized, stop)))
                ∙ e1 (ph.p_vaddr + bias + k))
              ∙ copied_cell-file contents ph (ph.p_vaddr + bias) _ k (v (ph.p_vaddr + bias + k)) h
                  (at_own k (omega (arith, h, sized))))
      file_at (suc n) j k e nth is_ph = c.shows_file n j k e nth is_ph

      zeros_at :
          (n j k : ℕ) (e : Phdr)
          → get_elem? (i ∷ is) n ≡ some j
          → get_elem? image.phdrs j ≡ some e
          → e.p_filesz ≤ k
          → k < e.p_memsz
          → datum (v2 (e.p_vaddr + bias + k)) ≡ some (stored 0)
      zeros_at zero j k e nth is_ph =
          subst
            (λ (e : Phdr).
              e.p_filesz ≤ k → k < e.p_memsz → datum (v2 (e.p_vaddr + bias + k)) ≡ some (stored 0))
            (same_entry j e (some-injective i j nth) is_ph)
            (λ h h'.
              ap datum (
                c.same_beyond (ph.p_vaddr + bias + k) (inl (omega (arith, h', stop)))
                ∙ e1 (ph.p_vaddr + bias + k))
              ∙ copied_cell-zeros contents ph (ph.p_vaddr + bias) _ k (v (ph.p_vaddr + bias + k)) h
                  (omega (arith, h', stop)) (at_own k h'))
      zeros_at (suc n) j k e nth is_ph = c.shows_zeros n j k e nth is_ph

  module _ (size : Option ℕ) {end : ℕ} (fits : end < u64_end) where
    pub Post-copy_segments :
        {from : ℕ} {is : List ℕ} {segs : List SegmentPlan} (s : S)
        → Arranged image.phdrs vm.page_size bias end from is segs
        → All (IsLoad image.phdrs vm.page_size size) is
        → AllWritable (view s) from (end - from)
        → Post
            (λ _ s'. IsCopied from end is (view s) (view s'))
            (λ e s'. Beyond from end (view s) (view s'))
            (copy_segments vm image src bias segs s)
    unfolding copy_segments
    Post-copy_segments s (all_placed h) each writable = Post-done tt s (record {
      same_writable = λ x. refl;
      same_beyond = λ x off. refl;
      shows_file = λ n i k ph nth is_ph h. cc;
      shows_zeros = λ n i k ph nth is_ph h h'. cc;
    })
    Post-copy_segments {from} s (followed {i = i} {is} {seg} {segs} l h rest) (load, each)
          writable =
        let below = Arranged-le rest in
        let (sized, offset_fits) = checked image.phdrs size i l load in
        Post-bind _ _ s
          (Post-copy_segment i seg l s sized offset_fits (omega (arith, below)) (λ x inside.
            writable x (
              within-part from (end - from) _ _ x (omega (arith, start l))
                (omega (arith, below, start l, stop l)) inside)))
          (λ _ s1 e1.
            Post-map
              (Post-copy_segments s1 rest each (λ x inside.
                ap is_writable (e1 x)
                ∙ copied_cell-writable contents l.entry _ _ x (view s x)
                ∙ writable x (
                    within-part from (end - from) _ _ x (omega (arith, start l, stop l))
                      (omega (arith, below)) inside)))
              (λ _ s2 c.
                IsCopied-cons l from end is (view s) (view s1) (view s2) h below sized writable e1
                  c)
              (λ e s2 same x off.
                same x (omega (arith, off, start l, stop l))
                ∙ e1 x
                ∙ copied_cell-outside contents l.entry _ _ x (view s x)
                    (omega (arith, sized, stop l)) (omega (arith, off, start l, below))))
          (λ e s1 same x off. same x (omega (arith, off, below, start l)))
      where
        start :
            (l : IsPlanOf image.phdrs vm.page_size bias i seg)
            → down (l.entry.p_vaddr + bias) vm.page_size ≤ l.entry.p_vaddr + bias
        start l = down-le vm.page_size (IsPowerOfTwo-pos p) (l.entry.p_vaddr + bias)

        stop :
            (l : IsPlanOf image.phdrs vm.page_size bias i seg)
            → l.entry.p_vaddr + bias + l.entry.p_memsz
              ≤ up (l.entry.p_vaddr + bias + l.entry.p_memsz) vm.page_size
        stop l = le-up vm.page_size (IsPowerOfTwo-pos p) (l.entry.p_vaddr + bias + l.entry.p_memsz)
