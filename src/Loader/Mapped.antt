-- ===== src/Loader/Mapped.antt =====
-- `load_mapped` on an address space that keeps the laws.
use app_elfloader.Prelude.{
  ℕ, ◌<◌, ◌≡◌, refl, Bool, Option, none, some, List, get_elem?_bound, length, arith, subst, sym,
  ◌∙◌,
}
use app_elfloader.Prelude.Int.{ℤ}
use app_elfloader.Outcome.{Safe-index_at}
use app_elfloader.Action.{
  Post, Post-map, Post-bind, Post-done, Post-if, Post-pure, Post-intro, modify,
}
use app_elfloader.Word.Bits.{IsPowerOfTwo, IsPowerOfTwo-pos}
use app_elfloader.Elf.Image.{Image}
use app_elfloader.Layout.Plan.{AnonMap, SegmentPlan, LoadPlan}
use app_elfloader.Layout.Plan.Arrange.{Arranged, all_placed, followed}
use app_elfloader.Layout.Plan.Sound.{IsSound}
use app_elfloader.Loader.{Vm, sync_tail, sync_tails, fill_mapped}
use app_elfloader.Loader.Memory.{Cell, IsVm, Same}
use app_elfloader.Loader.Paint.{paint_all, paint_all-outside}
use app_elfloader.Loader.Fill.{Beyond}
use app_elfloader.Loader.Segments.{Post-fill_segments}

module _ {S : Type 0} {vm : Vm S} {view : S → ℕ → Cell} (laws : IsVm vm view)
    (p : IsPowerOfTwo vm.page_size) (image : Image) (fd : ℤ) where
  Post-sync_tail :
      (exec : Bool) (zero_part : Option AnonMap) (s : S)
      → Post
          (λ _ s'. Same (view s) (view s'))
          (λ e s'. Same (view s) (view s'))
          (sync_tail vm exec zero_part s)
  unfolding sync_tail modify
  Post-sync_tail exec none s = Post-done tt s (λ x. refl)
  Post-sync_tail exec (some z) s =
      Post-if exec _ _ s (λ _. Post-intro _ (laws.syncs s z.addr z.len))
        (λ _. Post-done tt s (λ x. refl))

  Post-sync_tails :
      {page_size bias end from : ℕ} {is : List ℕ} {segs : List SegmentPlan} (s : S)
      → Arranged image.phdrs page_size bias end from is segs
      → Post
          (λ _ s'. Same (view s) (view s'))
          (λ e s'. Same (view s) (view s'))
          (sync_tails vm image segs s)
  unfolding sync_tails
  Post-sync_tails s (all_placed h) = Post-done tt s (λ x. refl)
  Post-sync_tails s (followed {seg = seg} l h rest) =
      Post-pure _ _ s
        (Safe-index_at image.phdrs seg.idx
          (subst (λ j. j < length image.phdrs) (sym l.idx) (get_elem?_bound _ _ l.at)))
        (λ ph _.
          Post-bind _ _ s (Post-sync_tail _ seg.zero_fill s)
            (λ _ s1 same.
              Post-map (Post-sync_tails s1 rest) (λ _ s2 e x. e x ∙ same x)
                (λ e s2 e' x. e' x ∙ same x))
            (λ e s1 same. same))
        (λ e x. refl)

  -- What `fill_mapped` leaves: the segments, painted on what was there, or no change outside them.
  pub Post-fill_mapped :
      (pl : LoadPlan) (s : S)
      → IsSound vm.page_size image pl
      → Post
          (λ _ s'. (x : ℕ) → view s' x ≡ paint_all fd pl.segments x (view s x))
          (λ e s'. Beyond pl.base pl.end (view s) (view s'))
          (fill_mapped vm image fd pl s)
  unfolding fill_mapped
  Post-fill_mapped pl s sound =
      Post-bind _ _ s
        (Post-fill_segments laws (IsPowerOfTwo-pos p) image fd
          (omega (arith, sound.to_reservation, sound.no_wrap)) s sound.arranged)
        (λ _ s1 painted.
          Post-map (Post-sync_tails s1 sound.arranged) (λ _ s2 same x. same x ∙ painted x)
            (λ e s2 same x outside.
              same x ∙ painted x ∙ paint_all-outside fd sound.arranged x (view s x) outside))
        (λ e s1 same. same)
