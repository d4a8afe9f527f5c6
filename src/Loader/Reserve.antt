-- ===== src/Loader/Reserve.antt =====
-- The reservation of `load_mapped`, and its release.
use app_elfloader.Prelude.{
  ℕ, ◌+◌, ◌-◌, ◌%◌, ◌≤◌, ◌<◌, ◌≡◌, ◌⊎◌, inl, inr, refl, Option, arith, subst, sym, ap, ◌∙◌, ◌==◌,
  ==_iff,
}
use app_elfloader.Outcome.{ok, Safe, Safe-ok, returns}
use app_elfloader.Action.{
  Post, Post-bind, Post-done, Post-fail, Post-if, Post-pure_is, Post-ignore, Post-intro, modify,
}
use app_elfloader.Word.{u64_end, Safe-sub64}
use app_elfloader.Word.Bits.{IsPowerOfTwo, IsPowerOfTwo-pos}
use app_elfloader.Word.Align.{sub-mod_zero}
use app_elfloader.Elf.Header.{et_dyn}
use app_elfloader.Elf.Image.{Image}
use app_elfloader.Elf.Image.Parse.{IsWellFormed}
use app_elfloader.Elf.Span.{va_span}
use app_elfloader.Elf.Span.Cover.{IsSpan, Safe-va_span}
use app_elfloader.Layout.Plan.{Placement, fixed, at, reservation_len, prot_none}
use app_elfloader.Loader.{Vm, anywhere, hint, Loaded, reserve_range, keep_or_refuse, unload}
use app_elfloader.Loader.Range.{KeepsHeld, outside-KeepsHeld, changed-outside}
use app_elfloader.Loader.Memory.{
  Cell, IsVm, Same, SameOutside, AllFree, changed, free, held, stored,
}

-- `[addr, addr + len)`, pages that were free, is held without access, and nothing else changed.
pub record IsReserved (page_size addr len : ℕ) (v v' : ℕ → Cell) : Type 0 where
  pub addr_aligned : addr % page_size ≡ 0
  pub len_aligned : len % page_size ≡ 0
  pub fits : addr + len < u64_end
  pub was_free : AllFree v addr len
  pub reserved : Same (changed addr len (λ k _. held prot_none (stored 0)) v) v'

-- Where a placement puts the image.
abbrev pub IsPlacement : ℕ → Image → ℕ → ℕ → Placement → Type 0
IsPlacement page image addr len fixed = va_span image page ≡ ok (addr, addr + len)
IsPlacement page image addr len (at raw) = (raw ≡ addr) × (reservation_len image page ≡ ok len)

module _ {S : Type 0} {vm : Vm S} {view : S → ℕ → Cell} (laws : IsVm vm view) {native : ℕ}
    (p : IsPowerOfTwo vm.page_size) {size : Option ℕ} (image : Image)
    (w : IsWellFormed native vm.page_size size image) where
  abbrev Reserved : S → Placement → S → Type 0
  Reserved s placement s' =
      (addr len : ℕ) × IsPlacement vm.page_size image addr len placement
      × IsReserved vm.page_size addr len (view s) (view s')

  Post-keep_or_refuse :
      (s s' : S) (lo hi got : ℕ)
      → va_span image vm.page_size ≡ ok (lo, hi)
      → lo ≤ hi
      → IsReserved vm.page_size got (hi - lo) (view s) (view s')
      → Post
          (Reserved s)
          (λ e s''. KeepsHeld (view s) (view s''))
          (keep_or_refuse vm lo (hi - lo) got s')
  unfolding keep_or_refuse
  Post-keep_or_refuse s s' lo hi got spans ordered r =
      Post-if (got == lo) _ _ s'
        (λ t.
          let same : got ≡ lo = (==_iff got lo).0 t in
          Post-done fixed s' (
            lo,
            hi - lo,
            spans ∙ ap (λ t. ok (lo, t)) (omega arith),
            subst (λ (g : ℕ). IsReserved vm.page_size g (hi - lo) (view s) (view s')) same r,
          ))
        (λ _.
          Post-bind _ _ s'
            (Post-ignore (vm.unmap got (hi - lo)) s'
              (laws.unmaps s' got (hi - lo) r.addr_aligned r.len_aligned)
              (λ _ s1 same. outside-KeepsHeld got (hi - lo) r.was_free (λ x h.
                same x ∙ changed-outside got (hi - lo) (λ k _. free) (view s') x h ∙ untouched x h))
              (λ e s1 same.
                outside-KeepsHeld got (hi - lo) r.was_free (λ x h. same x ∙ untouched x h)))
            (λ _ s1 kept. Post-fail _ s1 kept) (λ e s1 kept. kept))
    where
      untouched : SameOutside got (hi - lo) (view s) (view s')
      untouched x h =
          r.reserved x
          ∙ changed-outside got (hi - lo) (λ k _. held prot_none (stored 0)) (view s) x h

  pub Post-reserve_range :
      (s : S) (lo hi need : ℕ)
      → va_span image vm.page_size ≡ ok (lo, hi)
      → reservation_len image vm.page_size ≡ ok need
      → need % vm.page_size ≡ 0
      → Post
          (Reserved s)
          (λ e s'. KeepsHeld (view s) (view s'))
          (reserve_range vm image vm.page_size lo need s)
  unfolding reserve_range
  Post-reserve_range s lo hi need spans needs aligned =
      let span : IsSpan image.phdrs p size w.chain lo hi = Safe-ok (Safe-va_span p w) spans in
      let whole : (hi - lo) % vm.page_size ≡ 0 =
        sub-mod_zero vm.page_size (IsPowerOfTwo-pos p) hi lo span.hi_aligned span.lo_aligned in
      Post-if (image.ehdr.e_type == et_dyn) _ _ s
        (λ _.
          Post-bind _ _ s (laws.maps_somewhere s anywhere need prot_none (λ addr e. cc) aligned)
            (λ raw s1 (at_page, fits, was_free, same). Post-done (at raw) s1 (
              raw,
              need,
              (refl, needs),
              record {
                addr_aligned = at_page;
                len_aligned = aligned;
                fits = fits;
                was_free = was_free;
                reserved = same;
              },
            ))
            (λ e s1 same x kept. same x))
        (λ _.
          Post-pure_is _ _ s (subst (λ o. Safe (λ a. a ≡ (lo, hi)) o) (sym spans) (returns refl))
            (Post-pure_is _ _ s (Safe-sub64 hi lo span.ordered)
              (Post-bind _ _ s
                (laws.maps_somewhere s (hint lo) (hi - lo) prot_none (λ addr e. cc) whole)
                (λ got s1 (at_page, fits, was_free, same).
                  Post-keep_or_refuse s s1 lo hi got spans span.ordered (record {
                    addr_aligned = at_page;
                    len_aligned = whole;
                    fits = fits;
                    was_free = was_free;
                    reserved = same;
                  }))
                (λ e s1 same x kept. same x))
              (λ e x kept. refl))
            (λ e x kept. refl))

-- Giving the range back frees it, or leaves everything as it was.
pub Post-unload :
    {S : Type 0} {vm : Vm S} {view : S → ℕ → Cell} (laws : IsVm vm view) (l : Loaded) (s : S)
    → l.plan.reserve_addr % vm.page_size ≡ 0
    → l.plan.reserve_len % vm.page_size ≡ 0
    → Post
        (λ _ s'.
          Same (changed l.plan.reserve_addr l.plan.reserve_len (λ k _. free) (view s)) (view s')
          ⊎ Same (view s) (view s'))
        (λ e s'. ⊥)
        (unload vm l s)
unfolding unload modify
Post-unload laws l s at_page whole =
    Post-if l.allocated _ _ s
      (λ _. Post-intro _ (inl (laws.frees s l.plan.reserve_addr l.plan.reserve_len)))
      (λ _.
        Post-ignore _ s (laws.unmaps s l.plan.reserve_addr l.plan.reserve_len at_page whole)
          (λ _ s1 same. inl same) (λ e s1 same. inr same))
