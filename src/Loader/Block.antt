-- ===== src/Loader/Block.antt =====
-- `load_copied` on an address space that keeps the laws.
use app_elfloader.Prelude.{
  ℕ, ◌+◌, ◌-◌, ◌%◌, ◌≤◌, ◌<◌, ◌≡◌, ◌⊎◌, inl, inr, refl, Bool, true, false, Option, some, List, [],
  ◌∷◌, length, get_elem?, get_elem?_bound, if◌then◌else◌, arith, subst, sym, ap, ◌∙◌,
}
use native.Mathlib.Nat.{zero-mod}
use app_elfloader.Outcome.{
  Safe, Safe-index_at, Safe-bind, Safe-if, Safe-reject_if, Safe-intro, returns,
}
use app_elfloader.Action.{
  Post, Post-map, Post-bind, Post-done, Post-intro, Post-pure, Post-pure_is, Post-pure_eq,
  Post-ignore, Post-or_else, modify,
}
use app_elfloader.Word.{u64_end, Safe-sub64}
use app_elfloader.Word.Align.{sub-mod_zero}
use app_elfloader.Word.Bits.{IsPowerOfTwo, IsPowerOfTwo-pos, IsPowerOfTwo-mod}
use app_elfloader.Elf.Header.{Phdr, is_exec}
use app_elfloader.Elf.Source.{ImageSource}
use app_elfloader.Elf.Image.{Image}
use app_elfloader.Elf.Image.Parse.{IsWellFormed}
use app_elfloader.Elf.Span.Cover.{loads-IsLoad}
use app_elfloader.Layout.Plan.{SegmentPlan, LoadPlan}
use app_elfloader.Layout.Plan.Shape.{IsShape, Safe-range}
use app_elfloader.Layout.Plan.Arrange.{Arranged, Arranged-le, all_placed, followed}
use app_elfloader.Layout.Plan.Place.{Safe-reservation_len, Safe-seg_align}
use app_elfloader.Layout.Plan.Sound.{IsSound, plan_at-IsSound}
use app_elfloader.Layout.View.{exec_ranges_of, exec_ranges}
use app_elfloader.Loader.{
  Vm, Loaded, sync_ranges, protect_segments, fill_copied, load_copied, keep_filled,
}
use app_elfloader.Loader.Range.{
  KeepsHeld, outside-KeepsHeld, changed-outside, within_outside, with_prot-datum, AllWritable-part,
}
use app_elfloader.Loader.Memory.{
  Cell, IsVm, Same, SameOutside, AllFree, AllWritable, changed, within, free, stored, with_prot,
  datum,
}
use app_elfloader.Loader.Fill.{Beyond}
use app_elfloader.Loader.Copy.{IsFile}
use app_elfloader.Loader.Copied.{IsCopied, Post-copy_segments}
use app_elfloader.Loader.Reserve.{Post-unload}
use app_elfloader.Loader.Sound.{within_beyond}

-- The stored bytes are the same, and so is all outside `[from, end)`.
abbrev pub SameData : ℕ → ℕ → (ℕ → Cell) → (ℕ → Cell) → Type 0
SameData from end v v' = ((x : ℕ) → datum (v' x) ≡ datum (v x)) × Beyond from end v v'

-- What the range of a segment is for `protect`.
abbrev RangeFacts : ℕ → ℕ → ℕ → ℕ × ℕ → Type 0
RangeFacts page_size start stop r =
    (r.0 ≤ r.1)
    × (r.0 % page_size ≡ 0)
    × ((r.1 - r.0) % page_size ≡ 0)
    × ((x : ℕ) → (x < start) ⊎ (stop ≤ x) → within r.0 (r.1 - r.0) x ≡ false)

range_facts :
    {page_size start stop : ℕ} {seg : SegmentPlan} (shape : IsShape page_size start stop seg)
    (pos : 0 < page_size) (r : ℕ × ℕ)
    → (r ≡ (start, stop)) ⊎ ((r ≡ (0, 0)) × (start ≡ stop))
    → RangeFacts page_size start stop r
range_facts {page_size} {start} {stop} shape pos r (inl e) =
    subst (RangeFacts page_size start stop) (sym e) (
      omega (arith, shape.start_le, shape.mid_le),
      shape.start_aligned,
      sub-mod_zero page_size pos stop start shape.stop_aligned shape.start_aligned,
      λ x off.
          within_outside start stop start (stop - start) x (omega arith)
            (omega (arith, shape.start_le, shape.mid_le)) off,
    )
range_facts {page_size} {start} {stop} shape pos r (inr (e, _)) =
    subst (RangeFacts page_size start stop) (sym e)
      (omega arith, zero-mod page_size, zero-mod page_size, λ x off. ground arith)

module _ {phdrs : List Phdr} {page_size bias end : ℕ} (p : IsPowerOfTwo page_size)
    (fits : end < u64_end) where
  Safe-exec_ranges_of :
      {from : ℕ} {is : List ℕ} {segs : List SegmentPlan}
      → Arranged phdrs page_size bias end from is segs
      → Safe (λ _. Unit {0}) (exec_ranges_of phdrs segs)
  unfolding exec_ranges_of
  Safe-exec_ranges_of (all_placed h) = returns tt
  Safe-exec_ranges_of (followed {seg = seg} l h rest) =
      let below = Arranged-le rest in
      Safe-bind _ _
        (Safe-index_at phdrs seg.idx
          (subst (λ j. j < length phdrs) (sym l.idx) (get_elem?_bound _ _ l.at)))
        λ ph _. Safe-bind _ _ (Safe-exec_ranges_of rest) λ ranges _.
          Safe-if (is_exec ph) _ _
            (λ _. Safe-bind _ _ (Safe-range seg l.shape (omega arith)) λ r where_it_is.
              Safe-bind _ _
                (Safe-sub64 r.1 r.0 (range_facts l.shape (IsPowerOfTwo-pos p) r where_it_is).0)
                λ len _. returns tt)
            (λ _. returns tt)

module _ {S : Type 0} {vm : Vm S} {view : S → ℕ → Cell} (laws : IsVm vm view)
    (p : IsPowerOfTwo vm.page_size) where
  Post-sync_ranges :
      (ranges : List (ℕ × ℕ)) (s : S)
      → Post
          (λ _ s'. Same (view s) (view s'))
          (λ e s'. Same (view s) (view s'))
          (sync_ranges vm ranges s)
  unfolding sync_ranges modify
  Post-sync_ranges [] s = Post-done tt s (λ x. refl)
  Post-sync_ranges ((addr, len) ∷ rest) s =
      Post-bind _ _ s
        (Post-intro {P = λ _ s'. Same (view s) (view s')} {Q = λ e s'. Same (view s) (view s')} _
          (laws.syncs s addr len))
        (λ _ s1 same.
          Post-map (Post-sync_ranges rest s1) (λ _ s2 e x. e x ∙ same x)
            (λ e s2 e' x. e' x ∙ same x))
        (λ e s1 same. same)

  Post-protect_segments :
      {phdrs : List Phdr} {bias end from : ℕ} {is : List ℕ} {segs : List SegmentPlan} (s : S)
      → end < u64_end
      → Arranged phdrs vm.page_size bias end from is segs
      → Post
          (λ _ s'. SameData from end (view s) (view s'))
          (λ e s'. SameData from end (view s) (view s'))
          (protect_segments vm segs s)
  unfolding protect_segments
  Post-protect_segments s fits (all_placed h) = Post-done tt s (λ x. refl, λ x off. refl)
  Post-protect_segments {end = end} {from} s fits (followed {is = is} {seg} {segs} l h rest) =
      let below = Arranged-le rest in
      Post-pure _ _ s (Safe-range seg l.shape (omega arith))
        (λ r where_it_is.
          let (ordered, low_aligned, whole, apart) =
            range_facts l.shape (IsPowerOfTwo-pos p) r where_it_is in
          Post-pure_is _ _ s (Safe-sub64 r.1 r.0 ordered)
            (Post-bind _ _ s
              (Post-ignore {R = λ s'. SameData from end (view s) (view s')} _ s
                (laws.protects s r.0 (r.1 - r.0) seg.prot low_aligned whole)
                (λ _ s1 same. (
                  λ x. ap datum (same x) ∙ reprotected seg.prot r (view s) x,
                  λ x off.
                      same x
                      ∙ changed-outside r.0 (r.1 - r.0) (λ k c. with_prot seg.prot c) (view s) x
                          (apart x
                            (omega (arith, off, h, below, l.shape.start_le, l.shape.mid_le))),
                ))
                (λ e s1 (same, kept). (
                  kept,
                  λ x off.
                      same x
                        (apart x (omega (arith, off, h, below, l.shape.start_le, l.shape.mid_le))),
                )))
              (λ _ s1 same.
                Post-map (Post-protect_segments s1 fits rest)
                  (λ _ s2 later.
                    chain s1 s2 (omega (arith, h, l.shape.start_le, l.shape.mid_le)) same later)
                  (λ e s2 later.
                    chain s1 s2 (omega (arith, h, l.shape.start_le, l.shape.mid_le)) same later))
              (λ e s1 same. same))
            (λ e. (λ x. refl, λ x off. refl)))
        (λ e. (λ x. refl, λ x off. refl))
    where
      reprotected :
          (prot : ℕ) (r : ℕ × ℕ) (v : ℕ → Cell) (x : ℕ)
          → datum (changed r.0 (r.1 - r.0) (λ k c. with_prot prot c) v x) ≡ datum (v x)
      reprotected prot r v x = at_one (within r.0 (r.1 - r.0) x)
        where
          at_one : (b : Bool) → datum (if b then with_prot prot (v x) else v x) ≡ datum (v x)
          at_one true = with_prot-datum prot (v x)
          at_one false = refl

      chain :
          (s1 s2 : S) {next : ℕ}
          → from ≤ next
          → SameData from end (view s) (view s1)
          → SameData next end (view s1) (view s2)
          → SameData from end (view s) (view s2)
      chain s1 s2 h same later =
          (λ x. later.0 x ∙ same.0 x, λ x off. later.1 x (omega (arith, off, h)) ∙ same.1 x off)

-- The image stands in a block that was free, every byte of each load as its program header says.
pub record IsLoadedBlock (page_size : ℕ) (image : Image) (contents : ℕ → ℕ) (v : ℕ → Cell)
    (l : Loaded) (v' : ℕ → Cell) : Type 0 where
  pub sound : IsSound page_size image l.plan
  pub by_allocation : l.allocated ≡ true
  pub addr_aligned : l.plan.reserve_addr % page_size ≡ 0
  pub len_aligned : l.plan.reserve_len % page_size ≡ 0
  pub was_free : AllFree v l.plan.reserve_addr l.plan.reserve_len
  pub outside : SameOutside l.plan.reserve_addr l.plan.reserve_len v v'
  pub shows_file :
      (n i k : ℕ) (ph : Phdr)
      → get_elem? image.loads n ≡ some i
      → get_elem? image.phdrs i ≡ some ph
      → k < ph.p_filesz
      → datum (v' (ph.p_vaddr + l.plan.bias + k)) ≡ some (stored (contents (ph.p_offset + k)))
  pub shows_zeros :
      (n i k : ℕ) (ph : Phdr)
      → get_elem? image.loads n ≡ some i
      → get_elem? image.phdrs i ≡ some ph
      → ph.p_filesz ≤ k
      → k < ph.p_memsz
      → datum (v' (ph.p_vaddr + l.plan.bias + k)) ≡ some (stored 0)

module _ {S : Type 0} {vm : Vm S} {view : S → ℕ → Cell} (laws : IsVm vm view) (reserve : ℕ → Bool)
    {native : ℕ} (p : IsPowerOfTwo vm.page_size) {size : Option ℕ} (image : Image)
    (w : IsWellFormed native vm.page_size size image) {src : ImageSource} {contents : ℕ → ℕ}
    (file : IsFile src contents) where
  Post-fill_copied :
      (pl : LoadPlan) (s : S)
      → IsSound vm.page_size image pl
      → AllWritable (view s) pl.reserve_addr pl.reserve_len
      → Post
          (λ _ s'.
            (v1 : ℕ → Cell) × IsCopied laws p file image pl.bias pl.base pl.end image.loads
              (view s)
              v1
            × SameData pl.base pl.end v1 (view s'))
          (λ e s'. Beyond pl.base pl.end (view s) (view s'))
          (fill_copied vm reserve image src pl s)
  unfolding fill_copied exec_ranges
  Post-fill_copied pl s sound writable =
      Post-pure _ _ s (Safe-reject_if _ _)
        (λ _ _.
          Post-bind _ _ s
            (Post-copy_segments laws p file image pl.bias size end_fits s sound.arranged
              (loads-IsLoad p w)
              (AllWritable-part (view s) pl.reserve_addr pl.reserve_len pl.base (pl.end - pl.base)
                sound.from_reservation
                (omega (arith, sound.to_reservation, Arranged-le sound.arranged)) writable))
            (λ _ s1 c.
              Post-pure _ _ s1 (Safe-exec_ranges_of p end_fits sound.arranged)
                (λ ranges _.
                  Post-bind _ _ s1 (Post-sync_ranges laws p ranges s1)
                    (λ _ s2 same.
                      Post-map (Post-protect_segments laws p s2 end_fits sound.arranged)
                        (λ _ s3 kept. (
                          view s1,
                          c,
                          (λ x. kept.0 x ∙ ap datum (same x), λ x off. kept.1 x off ∙ same x),
                        ))
                        (λ e s3 kept x off. kept.1 x off ∙ same x ∙ c.same_beyond x off))
                    (λ e s2 same x off. same x ∙ c.same_beyond x off))
                (λ e x off. c.same_beyond x off))
            (λ e s1 same. same))
        (λ e x off. refl)
    where
      end_fits : pl.end < u64_end
      end_fits = omega (arith, sound.to_reservation, sound.no_wrap)

  -- On an address space that keeps the laws, with pages of a power of two, and from a source whose reads
  -- give the bytes of one file, `load_copied` on a well-formed image does not panic: its copy loop always
  -- ends. When it succeeds, the block that it allocated was free before, nothing outside the block
  -- changed, every file byte of every load is stored where the program header puts it, biased, and the
  -- rest of each load is zeros. When it fails, no byte that was held before has changed.
  pub load_copied-IsLoadedBlock :
      (s : S)
      → Post
          (λ l s'. IsLoadedBlock vm.page_size image contents (view s) l (view s'))
          (λ e s'. KeepsHeld (view s) (view s'))
          (load_copied vm reserve image src vm.page_size s)
  unfolding load_copied keep_filled
  load_copied-IsLoadedBlock s =
      Post-pure _ _ s (Safe-reject_if _ _)
        (λ _ _.
          Post-pure_eq _ _ s (Safe-reservation_len p w)
            (λ need needs whole.
              Post-pure _ _ s (Safe-seg_align p w)
                (λ align al.
                  Post-bind _ _ s (laws.allocates s align need)
                    (λ raw s1 (aligned, fits, was_free, writable, same).
                      let at_page = IsPowerOfTwo-mod p al.is_power al.above_page raw aligned in
                      let planned = plan_at-IsSound reserve p w raw need at_page needs fits in
                      Post-pure _ _ s1 (Safe-intro _ planned.0 planned.1)
                        (λ pl (sound, is_raw, is_need, _). filled s s1 pl sound (
                          subst (λ n. Taken s s1 pl.reserve_addr n) (sym is_need)
                            (subst (λ a. Taken s s1 a need) (sym is_raw)
                              (was_free, writable, same, at_page, whole))))
                        (λ e. outside-KeepsHeld raw need was_free same))
                    (λ e s1 same x kept. same x))
                (λ e x kept. refl))
            (λ e x kept. refl))
        (λ e x kept. refl)
    where
      Taken : S → S → ℕ → ℕ → Type 0
      Taken s s1 addr len =
          AllFree (view s) addr len
          × AllWritable (view s1) addr len
          × SameOutside addr len (view s) (view s1)
          × (addr % vm.page_size ≡ 0)
          × (len % vm.page_size ≡ 0)

      filled :
          (s s1 : S) (pl : LoadPlan)
          → IsSound vm.page_size image pl
          → Taken s s1 pl.reserve_addr pl.reserve_len
          → Post
              (λ l s'. IsLoadedBlock vm.page_size image contents (view s) l (view s'))
              (λ e s'. KeepsHeld (view s) (view s'))
              (keep_filled vm
                (record { plan = pl; allocated = true })
                (fill_copied vm reserve image src pl)
                s1)
      filled s s1 pl sound (was_free, writable, same, at_page, whole) =
          Post-bind _ _ s1
            (Post-or_else _ _ s1 (Post-fill_copied pl s1 sound writable) (λ _ s2 done. done)
              (λ e s2 kept.
                Post-map
                  (Post-unload laws (record { plan = pl; allocated = true }) s2 at_page whole)
                  (λ _ s3 released.
                    outside-KeepsHeld pl.reserve_addr pl.reserve_len was_free (λ x off.
                      elim released [
                        | inl freed ↦ freed x ∙ changed-outside _ _ (λ k _. free) (view s2) x off
                        | inr left ↦ left x
                      ]
                      ∙ kept x (within_beyond pl sound x off)
                      ∙ same x off))
                  (λ e s3 never. absurd never)))
            (λ _ s2 (v1, c, same_data). Post-done _ s2 (record {
              sound = sound;
              by_allocation = refl;
              addr_aligned = at_page;
              len_aligned = whole;
              was_free = was_free;
              outside = λ x off.
                  same_data.1 x (within_beyond pl sound x off)
                  ∙ c.same_beyond x (within_beyond pl sound x off)
                  ∙ same x off;
              shows_file =
                  λ n i k ph nth is_ph h. same_data.0 _ ∙ c.shows_file n i k ph nth is_ph h;
              shows_zeros =
                  λ n i k ph nth is_ph h h'. same_data.0 _ ∙ c.shows_zeros n i k ph nth is_ph h h';
            }))
            (λ e s2 same. same)
