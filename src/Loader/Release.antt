-- ===== src/Loader/Release.antt =====
-- What happens to the reservation when a load fails.
use app_elfloader.Prelude.{ℕ, ◌%◌, ◌≡◌, refl, true, false, subst, sym, ◌∙◌}
use app_elfloader.Prelude.Int.{ℤ}
use app_elfloader.Outcome.{ok}
use app_elfloader.Action.{Post, Post-bind, Post-done, Post-or_else, ignore_known, Post-ok, returned}
use app_elfloader.Word.Bits.{IsPowerOfTwo}
use app_elfloader.Elf.Image.{Image}
use app_elfloader.Layout.Plan.{LoadPlan}
use app_elfloader.Layout.Plan.Sound.{IsSound}
use app_elfloader.Loader.{Vm, keep_filled, fill_mapped, unload}
use app_elfloader.Loader.Range.{changed-outside, changed-inside}
use app_elfloader.Loader.Memory.{Cell, IsVm, SameOutside, within, free}
use app_elfloader.Loader.Paint.{paint_all}
use app_elfloader.Loader.Sound.{within_beyond}
use app_elfloader.Loader.Mapped.{Post-fill_mapped}

-- On an address space that keeps the laws and on which unmapping the reservation succeeds, for a sound
-- plan whose reservation is whole pages: when `fill_mapped` fails, the reservation is free again after
-- `load_mapped`'s last step, and nothing outside it has changed; when it succeeds, memory is the plan's
-- segments, painted on what was there.
pub keep_filled-frees :
    {S : Type 0} {vm : Vm S} {view : S → ℕ → Cell} (laws : IsVm vm view)
    (p : IsPowerOfTwo vm.page_size) (image : Image) (fd : ℤ) (pl : LoadPlan) (s : S)
    → IsSound vm.page_size image pl
    → pl.reserve_addr % vm.page_size ≡ 0
    → pl.reserve_len % vm.page_size ≡ 0
    → ((t : S) → (t' : S) × (vm.unmap pl.reserve_addr pl.reserve_len t ≡ (ok tt, t')))
    → Post
        (λ l s'. (l.plan ≡ pl) × ((x : ℕ) → view s' x ≡ paint_all fd pl.segments x (view s x)))
        (λ e s'.
          ((x : ℕ) → within pl.reserve_addr pl.reserve_len x ≡ true → view s' x ≡ free)
          × SameOutside pl.reserve_addr pl.reserve_len (view s) (view s'))
        (keep_filled vm (record { plan = pl; allocated = false }) (fill_mapped vm image fd pl) s)
unfolding keep_filled unload
keep_filled-frees {S = S} {vm} {view} laws p image fd pl s sound at_page whole unmaps =
    Post-bind _ _ s
      (Post-or_else _ _ s (Post-fill_mapped laws p image fd pl s sound) (λ _ s1 painted. painted)
        (λ e s1 same.
          let (s2, is_done) = unmaps s1 in
          let freed =
            Post-ok (laws.unmaps s1 pl.reserve_addr pl.reserve_len at_page whole) tt s2 is_done in
          subst (Post (λ _ t. Freed t) (λ _ t. Freed t)) (sym (unloaded s1 s2 is_done)) (
            returned (
              λ x h.
                  freed x
                  ∙ changed-inside pl.reserve_addr pl.reserve_len (λ k _. free) (view s1) x h,
              λ x h.
                  freed x
                  ∙ changed-outside pl.reserve_addr pl.reserve_len (λ k _. free) (view s1) x h
                  ∙ same x (within_beyond pl sound x h),
            ))))
      (λ _ s1 painted. Post-done _ s1 (refl, painted)) (λ e s1 freed. freed)
  where
    Freed : S → Type 0
    Freed t =
        ((x : ℕ) → within pl.reserve_addr pl.reserve_len x ≡ true → view t x ≡ free)
        × SameOutside pl.reserve_addr pl.reserve_len (view s) (view t)

    unloaded :
        (s1 s2 : S)
        → vm.unmap pl.reserve_addr pl.reserve_len s1 ≡ (ok tt, s2)
        → unload vm (record { plan = pl; allocated = false }) s1 ≡ (ok tt, s2)
    unloaded s1 s2 e = ignore_known _ e
