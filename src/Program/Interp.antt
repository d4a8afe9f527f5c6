-- ===== src/Program/Interp.antt =====
-- `load_interp`, and the unloading of the program when it fails.
use app_elfloader.Prelude.{ℕ, ◌≡◌, refl, Bool, false, Option, none, some, List, ==_iff, subst, sym}
use app_elfloader.Outcome.{Outcome, Safe, Safe-map_err, Safe-reject_if}
use app_elfloader.Err.{Error}
use app_elfloader.Action.{
  Action, Post, returned, failed, Post-map, Post-bind, Post-done, Post-pure, Post-or_else, ◌>>=◌,
}
use app_elfloader.Word.Bits.{IsPowerOfTwo}
use app_elfloader.Elf.Header.{et_dyn}
use app_elfloader.Elf.Reject.{error_of}
use app_elfloader.Elf.Source.{IsSource}
use app_elfloader.Elf.Image.{Image, needs_interp}
use app_elfloader.Elf.Image.Parse.{IsWellFormed, Safe-parse_image}
use app_elfloader.Loader.{Vm, Loaded}
use app_elfloader.Loader.Range.{KeepsHeld}
use app_elfloader.Loader.Memory.{Cell, IsVm, Same}
use app_elfloader.Loader.Copy.{IsFile}
use app_elfloader.Program.{Opened, Opener, drop_after, parse_opened, load_interp, load_wanted}
use app_elfloader.Program.Took.{IsOpener, Took, negated_true, Post-unload-Took, Post-load_from}

-- What the interpreter is.
pub record IsInterp (native page_size : ℕ) (v : ℕ → Cell) (i : Image × Loaded) (v' : ℕ → Cell)
    : Type 0 where
  pub size : Option ℕ
  pub well_formed : IsWellFormed native page_size size i.0
  pub independent : i.0.ehdr.e_type ≡ et_dyn
  pub last : needs_interp i.0 ≡ false
  pub took : Took page_size i.0 v i.1 v'

module _ {S : Type 0} {vm : Vm S} {view : S → ℕ → Cell} (laws : IsVm vm view) {opener : Opener S}
    (opening : IsOpener opener view) (reserve : ℕ → Bool) (native : ℕ)
    (p : IsPowerOfTwo vm.page_size) where
  view-Same : (s s' : S) → Same (view s) (view s') → view s' ≡ view s
  view-Same s s' same i x = same x i

  -- A block with an opened source: it starts with the memory as it was, and dropping the source leaves it.
  pub Post-opened :
      {A : Type 0} (P : A → (ℕ → Cell) → Type 0) (Q : (ℕ → Cell) → Type 0) (m : Opened → Action S A)
      (path : List ℕ) (s : S)
      → ((o : Opened) (s1 : S)
          → view s1 ≡ view s
          → IsSource o.src
          → (contents : ℕ → ℕ) × IsFile o.src contents
          → Post (λ a s'. P a (view s')) (λ e s'. Q (view s')) (m o s1))
      → Q (view s)
      → Post
          (λ a s'. P a (view s'))
          (λ e s'. Q (view s'))
          ((opener.open_path path >>= λ o. drop_after vm opener o (m o)) s)
  unfolding drop_after
  Post-opened {A = A} P Q m path s body failed_open =
      Post-bind _ _ s (opening.opens s path)
        (λ o s1 (reader, file, same).
          closed o (m o s1) (body o s1 (view-Same s s1 same) reader file))
        (λ e s1 same. subst Q (sym (view-Same s s1 same)) failed_open)
    where
      closed :
          (o : Opened) (r : Outcome Error A × S)
          → Post (λ a s'. P a (view s')) (λ e s'. Q (view s')) r
          → Post (λ a s'. P a (view s')) (λ e s'. Q (view s')) (r.0, opener.close o r.1)
      closed o r (returned {a} {s = s'} h) =
          returned (subst (P a) (sym (view-Same s' _ (opening.closes s' o))) h)
      closed o r (failed {e} {s = s'} h) =
          failed (subst Q (sym (view-Same s' _ (opening.closes s' o))) h)

  pub Safe-parse_opened :
      (o : Opened)
      → IsSource o.src
      → Safe
          (λ image. IsWellFormed native vm.page_size o.src.size image)
          (parse_opened vm reserve native o)
  unfolding parse_opened
  Safe-parse_opened o reader = Safe-map_err _ error_of (Safe-parse_image reserve native reader p)

  pub Post-load_interp :
      (path : List ℕ) (s : S)
      → Post
          (λ i s'. IsInterp native vm.page_size (view s) i (view s'))
          (λ e s'. KeepsHeld (view s) (view s'))
          (load_interp vm reserve native opener path s)
  unfolding load_interp
  Post-load_interp path s =
      Post-opened (λ i v'. IsInterp native vm.page_size (view s) i v') (KeepsHeld (view s)) _ path s
        (λ o s1 same reader file.
          let unchanged = λ (e : Error). subst (KeepsHeld (view s)) (sym same) (λ x kept. refl) in
          Post-pure _ _ s1 (Safe-parse_opened o reader)
            (λ image w.
              Post-pure _ _ s1 (Safe-reject_if _ _)
                (λ _ dynamic.
                  Post-pure _ _ s1 (Safe-reject_if _ _)
                    (λ _ last.
                      Post-bind _ _ s1 (Post-load_from laws reserve native p image o.fd s1 w file.1)
                        (λ l s2 took. Post-done _ s2 (record {
                          size = o.src.size;
                          well_formed = w;
                          independent =
                              (==_iff image.ehdr.e_type et_dyn).0 (negated_true _ dynamic);
                          last = last;
                          took = subst (λ v. Took vm.page_size image v l (view s2)) same took;
                        }))
                        (λ e s2 kept. subst (λ v. KeepsHeld v (view s2)) same kept))
                    unchanged)
                unchanged)
            unchanged)
        (λ x kept. refl)

  -- The main image stays, and what the interpreter took was free beside it.
  unfoldable pub Wanted :
      Image → (ℕ → Cell) → Loaded → Option (List ℕ) → Option (Image × Loaded) → (ℕ → Cell) → Type 0
  Wanted image v1 main none found v' = (found ≡ none) × (v' ≡ v1)
  Wanted image v1 main (some path) found v' =
      (i : Image × Loaded) × (found ≡ some i) × IsInterp native vm.page_size v1 i v'

  pub Post-load_wanted :
      (image : Image) (v : ℕ → Cell) (main : Loaded) (wanted : Option (List ℕ)) (s : S)
      → Took vm.page_size image v main (view s)
      → Post
          (λ found s'. Wanted image (view s) main wanted found (view s'))
          (λ e s'. KeepsHeld v (view s'))
          (load_wanted vm reserve native opener main wanted s)
  unfolding load_wanted Wanted
  Post-load_wanted image v main none s took = Post-done none s (refl, refl)
  Post-load_wanted image v main (some path) s took =
      Post-or_else _ _ s
        (Post-bind {Q' = λ e s'. KeepsHeld (view s) (view s')} _ _ s (Post-load_interp path s)
          (λ i s1 is_interp. Post-done (some i) s1 (i, refl, is_interp)) (λ e s1 kept. kept))
        (λ found s1 w. w)
        (λ e s1 kept.
          Post-map (Post-unload-Took laws image v (view s) main s1 took kept) (λ _ s2 h. h)
            (λ e s2 never. absurd never))
