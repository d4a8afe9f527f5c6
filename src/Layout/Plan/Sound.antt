-- ===== src/Layout/Plan/Sound.antt =====
-- `plan` as a whole.
use app_elfloader.Prelude.{
  ℕ, ◌+◌, ◌-◌, ◌%◌, ◌≤◌, ◌<◌, ◌≡◌, ◌≢◌, refl, sym, ap, ap₂, ◌∙◌, Bool, Option, List, [], arith,
  subst, All,
}
use app_elfloader.Outcome.{
  ok, panic, Safe, returns, Safe-bind, Safe-bind_is, Safe-map, Safe-ok_or, Safe-reject_if, Safe-ok,
  Safe-ne_panic, Safe-cases, fails, ◌>>=◌,
}
use app_elfloader.Word.{u64_end, checked_add, checked_add-eq-some, Safe-add64, Safe-sub64}
use app_elfloader.Word.Bits.{IsPowerOfTwo}
use app_elfloader.Word.Align.{up}
use app_elfloader.Elf.Header.{Phdr}
use app_elfloader.Elf.Image.{Image}
use app_elfloader.Elf.Image.Order.{Chain, done, link}
use app_elfloader.Elf.Image.Parse.{IsWellFormed}
use app_elfloader.Elf.Span.{va_span}
use app_elfloader.Elf.Span.Cover.{IsSpan, Safe-va_span, LiesIn}
use app_elfloader.Layout.Plan.{
  LoadPlan, Placement, fixed, at, Placed, place, seg_align, reservation_len, plan_segments, plan,
}
use app_elfloader.Layout.Plan.Place.{
  IsSegAlign, IsPlaced, Safe-place_at, Safe-place_fixed, Safe-seg_align, reservation_len-eq-ok,
}
use app_elfloader.Layout.Plan.Arrange.{Arranged, StartsAt, Safe-plan_segments}

-- What a plan promises: its pages lie in the reservation, and its segments are arranged on them.
pub record IsSound (page_size : ℕ) (image : Image) (pl : LoadPlan) : Type 0 where
  pub bias_aligned : pl.bias % page_size ≡ 0
  pub from_reservation : pl.reserve_addr ≤ pl.base
  pub to_reservation : pl.end ≤ pl.reserve_addr + pl.reserve_len
  pub no_wrap : pl.reserve_addr + pl.reserve_len < u64_end
  pub entry_biased : pl.entry ≡ image.ehdr.e_entry + pl.bias
  pub arranged : Arranged image.phdrs page_size pl.bias pl.end pl.base image.loads pl.segments

-- A chain whose loads lie from `lo` on starts there.
starts_low :
    (phdrs : List Phdr) {page_size : ℕ} (p : IsPowerOfTwo page_size) (size : Option ℕ) (lo hi : ℕ)
    {is : List ℕ} (c : Chain phdrs page_size size 0 is)
    → is ≢ []
    → All (LiesIn phdrs p size lo hi) is
    → StartsAt phdrs page_size size lo c
starts_low phdrs p size lo hi done n each = absurd (n refl)
starts_low phdrs p size lo hi (link l h rest) n each = (each.0 l.entry l.at).0

module _ (reserve : ℕ → Bool) {native page_size : ℕ} (p : IsPowerOfTwo page_size) {size : Option ℕ}
    {image : Image} (w : IsWellFormed native page_size size image) where
  Safe-plan_from :
      (placement : Placement) (lo hi align : ℕ) (Q : Placed → Type 0)
      → va_span image page_size ≡ ok (lo, hi)
      → seg_align image page_size ≡ ok align
      → IsSpan image.phdrs p size w.chain lo hi
      → Safe (λ x. IsPlaced page_size lo hi x × Q x) (place placement page_size lo (hi - lo) align)
      → Safe
          (λ pl.
            IsSound page_size image pl
            × (pl.align ≡ align)
            × Q (record {
              bias = pl.bias;
              reserve_addr = pl.reserve_addr;
              reserve_len = pl.reserve_len;
            })
            × (pl.base ≡ lo + pl.bias))
          (plan reserve image page_size placement)
  unfolding plan
  Safe-plan_from placement lo hi align Q spans aligns span places =
      Safe-bind_is _ _ (rw spans (returns refl)) (
        Safe-bind_is _ _ (rw aligns (returns refl)) (
          Safe-bind_is _ _ (Safe-sub64 hi lo span.ordered) (
            Safe-bind _ _ places λ x (placed, q).
              Safe-bind_is _ _
                (Safe-add64 lo x.bias (omega (arith, span.ordered, placed.below, placed.fits)))
                (Safe-bind_is _ _ (Safe-add64 hi x.bias (omega (arith, placed.below, placed.fits)))
                  (Safe-bind _ _ (Safe-reject_if _ _) λ _ _.
                    Safe-bind _ _ (arrange x placed) λ segments arranged.
                      Safe-bind_is _ _
                        (Safe-ok_or (checked_add image.ehdr.e_entry x.bias) _
                          (λ c e. (checked_add-eq-some _ _ e).0))
                        (returns (
                          record {
                            bias_aligned = placed.aligned;
                            from_reservation = placed.above;
                            to_reservation = placed.below;
                            no_wrap = placed.fits;
                            entry_biased = refl;
                            arranged = arranged;
                          },
                          refl,
                          q,
                          refl,
                        )))))))
    where
      arrange :
          (x : Placed)
          → IsPlaced page_size lo hi x
          → Safe
              (λ segs.
                Arranged image.phdrs page_size x.bias (hi + x.bias) (lo + x.bias) image.loads segs)
              (plan_segments page_size x.bias image.phdrs image.loads)
      arrange x placed =
          subst
            (λ t.
              Safe
                (λ segs.
                  Arranged image.phdrs page_size x.bias (t + x.bias) (lo + x.bias) image.loads segs)
                (plan_segments page_size x.bias image.phdrs image.loads))
            (sym span.ends)
            (Safe-plan_segments image.phdrs p size x.bias placed.aligned lo w.chain
              (starts_low image.phdrs p size lo hi w.chain w.loads_nonempty span.covers)
              (omega (arith, span.ends, placed.below, placed.fits)))

  -- A plan in a reservation of `reservation_len` bytes at the page-aligned address `raw`, when that
  -- range ends below 2 ^ 64: for a well-formed image `plan` does not panic, and in the plan that it
  -- returns the reservation is that range, the base is the least address from `raw` on that suits the
  -- alignment, the bias is page-aligned, base and end lie in the reservation, and the segments of all
  -- loads lie between them, in place, in ascending order and no two on one page.
  pub plan_at-IsSound :
      (raw len : ℕ)
      → raw % page_size ≡ 0
      → reservation_len image page_size ≡ ok len
      → raw + len < u64_end
      → (plan reserve image page_size (at raw) ≢ panic)
        × ((pl : LoadPlan)
            → plan reserve image page_size (at raw) ≡ ok pl
            → IsSound page_size image pl
              × (pl.reserve_addr ≡ raw)
              × (pl.reserve_len ≡ len)
              × (pl.base ≡ up raw pl.align))
  plan_at-IsSound raw len raw_aligned reserved fits = (Safe-ne_panic safe, λ pl e. Safe-ok safe e)
    where
      Result : LoadPlan → Type 0
      Result pl =
          IsSound page_size image pl
          × (pl.reserve_addr ≡ raw)
          × (pl.reserve_len ≡ len)
          × (pl.base ≡ up raw pl.align)

      safe : Safe Result (plan reserve image page_size (at raw))
      safe =
          let (lo, hi, align, spans, aligns, is_len) = reservation_len-eq-ok p w reserved in
          let span : IsSpan image.phdrs p size w.chain lo hi = Safe-ok (Safe-va_span p w) spans in
          let al : IsSegAlign page_size align = Safe-ok (Safe-seg_align p w) aligns in
          Safe-map
            (Safe-plan_from (at raw) lo hi align
              (λ x.
                (x.reserve_addr ≡ raw)
                × (x.reserve_len ≡ hi - lo + (align - page_size))
                × (lo + x.bias ≡ up raw align))
              spans aligns span
              (Safe-place_at p lo hi align raw al span.lo_aligned span.ordered raw_aligned
                (omega (arith, is_len, fits))))
            (λ pl r. (r.0, r.2.0, r.2.1 ∙ sym is_len, r.3 ∙ r.2.2 ∙ ap (up raw) (sym r.1)))

  -- At its link address: for a well-formed image `plan` does not panic, and in the plan that it returns
  -- the bias is 0, the reservation is exactly the span of the image, and the segments of all loads lie in
  -- it, in place, in ascending order and no two on one page.
  pub plan_fixed-IsSound :
      (plan reserve image page_size fixed ≢ panic)
      × ((pl : LoadPlan)
          → plan reserve image page_size fixed ≡ ok pl
          → IsSound page_size image pl
            × (pl.bias ≡ 0)
            × (va_span image page_size ≡ ok (pl.reserve_addr, pl.reserve_addr + pl.reserve_len)))
  unfolding plan ◌>>=◌
  plan_fixed-IsSound = (Safe-ne_panic safe, λ pl e. Safe-ok safe e)
    where
      safe :
          Safe
            (λ pl.
              IsSound page_size image pl
              × (pl.bias ≡ 0)
              × (va_span image page_size ≡ ok (pl.reserve_addr, pl.reserve_addr + pl.reserve_len)))
            (plan reserve image page_size fixed)
      safe =
          Safe-cases (va_span image page_size) (Safe-va_span p w)
            (λ (lo, hi) spans span.
              Safe-cases (seg_align image page_size) (Safe-seg_align p w)
                (λ align aligns _.
                  Safe-map
                    (Safe-plan_from fixed lo hi align
                      (λ x.
                        (x.bias ≡ 0)
                        × (x.reserve_addr ≡ lo)
                        × (x.reserve_addr + x.reserve_len ≡ hi))
                      spans aligns span
                      (Safe-place_fixed page_size lo hi align span.ordered span.fits))
                    (λ pl r. (r.0, r.2.0, spans ∙ ap₂ (λ a b. ok (a, b)) (sym r.2.1) (sym r.2.2))))
                (λ e aligns. rw (spans, aligns) fails))
            (λ e spans. rw spans fails)
