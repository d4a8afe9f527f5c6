-- ===== src/Loader/Fill.antt =====
-- `fill_mapped` on an address space that keeps the laws.
use app_elfloader.Prelude.{
  ℕ, ◌+◌, ◌-◌, ◌≤◌, ◌<◌, ◌≡◌, ◌⊎◌, refl, bit_or, Bool, true, false, ◌&&◌, ◌||◌, Option, none, some,
  if◌then◌else◌, arith, ◌∙◌,
}
use app_elfloader.Prelude.Int.{ℤ}
use app_elfloader.Word.{u64_end, Safe-sub64}
use app_elfloader.Word.Align.{sub-mod_zero}
use app_elfloader.Action.{Post, Post-map, Post-bind, Post-done, Post-if, Post-pure_is}
use app_elfloader.Layout.Plan.{FileMap, AnonMap, SegmentPlan, prot_write}
use app_elfloader.Layout.Plan.InPlace.{is_within}
use app_elfloader.Layout.Plan.Shape.{IsShape, PagesIn, Safe-range_window}
use app_elfloader.Loader.{Vm, map_file, zero_tail, map_anon, narrow}
use app_elfloader.Loader.Range.{within_outside}
use app_elfloader.Loader.Memory.{Cell, IsVm, SameOutside, AllWritable, within, with_prot}
use app_elfloader.Loader.Paint.{
  is_mapped, offset_in, after_file, after_clear, after_anon, after_narrow, parts_cover,
}

-- Nothing outside `[start, stop)` changed.
abbrev pub Beyond : ℕ → ℕ → (ℕ → Cell) → (ℕ → Cell) → Type 0
Beyond start stop v v' = (x : ℕ) → (x < start) ⊎ (stop ≤ x) → v' x ≡ v x

module _ {S : Type 0} {vm : Vm S} {view : S → ℕ → Cell} (laws : IsVm vm view) (start stop : ℕ) where
  failed_inside :
      (addr len : ℕ) {s s' : S}
      → start ≤ addr
      → addr + len ≤ stop
      → SameOutside addr len (view s) (view s')
      → Beyond start stop (view s) (view s')
  failed_inside addr len low high same x h =
      same x (within_outside start stop addr len x low high h)

  pub Post-map_file :
      (fd : ℤ) (window : Bool) (prot : ℕ) (file : Option FileMap) (s : S)
      → ((f : FileMap) → file ≡ some f → PagesIn vm.page_size start stop f.addr f.len)
      → Post
          (λ _ s'.
            (x : ℕ)
            → view s' x
              ≡ after_file fd
                  (if window then bit_or prot prot_write else prot)
                  (offset_in file x)
                  (is_mapped file x)
                  (view s x))
          (λ e s'. Beyond start stop (view s) (view s'))
          (map_file vm fd window prot file s)
  unfolding map_file
  Post-map_file fd window prot none s h = Post-done tt s (λ x. refl)
  Post-map_file fd window prot (some f) s h =
      let (at, len, low, high) = h f refl in
      Post-bind _ _ s (laws.maps_exactly s f.addr f.len _ _ at len)
        (λ got s' (_, same). Post-done tt s' same)
        (λ e s' same. failed_inside f.addr f.len low high same)

  pub Post-zero_tail :
      (zero_part : Option AnonMap) (s : S)
      → ((z : AnonMap)
          → zero_part ≡ some z
          → (start ≤ z.addr) × (z.addr + z.len ≤ stop) × AllWritable (view s) z.addr z.len)
      → Post
          (λ _ s'. (x : ℕ) → view s' x ≡ after_clear (is_within zero_part x) (view s x))
          (λ e s'. Beyond start stop (view s) (view s'))
          (zero_tail vm zero_part s)
  unfolding zero_tail
  Post-zero_tail none s h = Post-done tt s (λ x. refl)
  Post-zero_tail (some z) s h =
      let (low, high, writable) = h z refl in
      Post-map (laws.clears s z.addr z.len writable) (λ _ s' same. same)
        (λ e s' same. failed_inside z.addr z.len low high same)

  pub Post-map_anon :
      (prot : ℕ) (anon : Option AnonMap) (s : S)
      → ((a : AnonMap) → anon ≡ some a → PagesIn vm.page_size start stop a.addr a.len)
      → Post
          (λ _ s'. (x : ℕ) → view s' x ≡ after_anon prot (is_within anon x) (view s x))
          (λ e s'. Beyond start stop (view s) (view s'))
          (map_anon vm prot anon s)
  unfolding map_anon
  Post-map_anon prot none s h = Post-done tt s (λ x. refl)
  Post-map_anon prot (some a) s h =
      let (at, len, low, high) = h a refl in
      Post-bind _ _ s (laws.maps_exactly s a.addr a.len _ _ at len)
        (λ got s' (_, same). Post-done tt s' same)
        (λ e s' same. failed_inside a.addr a.len low high same)

  module _ {seg : SegmentPlan} (shape : IsShape vm.page_size start stop seg) where
    pub Post-narrow :
        (s : S)
        → stop < u64_end
        → 0 < vm.page_size
        → Post
            (λ _ s'.
              (x : ℕ)
              → view s' x
                ≡ after_narrow seg.prot
                    (seg.needs_write_window && (is_mapped seg.file x || is_within seg.anon x))
                    (view s x))
            (λ e s'. Beyond start stop (view s) (view s'))
            (narrow vm seg s)
    unfolding narrow
    Post-narrow s fits pos =
        Post-if seg.needs_write_window _ _ s
          (λ window.
            Post-pure_is _ _ s (Safe-range_window seg shape fits window)
              (Post-pure_is _ _ s
                (Safe-sub64 stop start (omega (arith, shape.start_le, shape.mid_le)))
                (Post-map
                  (laws.protects s start (stop - start) seg.prot shape.start_aligned (
                    sub-mod_zero vm.page_size pos stop start shape.stop_aligned
                      shape.start_aligned))
                  (λ _ s' same x. same x ∙ narrowed window x)
                  (λ e s' (same, _).
                    failed_inside start (stop - start) (omega arith)
                      (omega (arith, shape.start_le, shape.mid_le)) same))
                (λ e x _. refl))
              (λ e x _. refl))
          (λ closed. Post-done tt s (λ x. unchanged closed x))
      where
        narrowed :
            seg.needs_write_window ≡ true
            → (x : ℕ)
            → (if within start (stop - start) x then with_prot seg.prot (view s x) else view s x)
              ≡ after_narrow seg.prot
                  (seg.needs_write_window && (is_mapped seg.file x || is_within seg.anon x))
                  (view s x)
        narrowed window x = rw (window, parts_cover shape x) refl

        unchanged :
            seg.needs_write_window ≡ false
            → (x : ℕ)
            → view s x
              ≡ after_narrow seg.prot
                  (seg.needs_write_window && (is_mapped seg.file x || is_within seg.anon x))
                  (view s x)
        unchanged closed x = rw closed refl
