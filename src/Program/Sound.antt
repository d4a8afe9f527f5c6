-- ===== src/Program/Sound.antt =====
-- `load_program` on an address space and an opener that keep their laws.
use app_elfloader.Prelude.{
  arith, ℕ, ◌+◌, ◌≡◌, refl, Bool, true, false, Option, none, some, List, subst, sym, ◌∙◌,
}
use mathlib.Core.Bool.{false≢true}
use app_elfloader.Outcome.{ok, Safe-map, Safe-reject_if}
use app_elfloader.Err.{Error}
use app_elfloader.Action.{lift, Post, Post-bind, Post-done, Post-if, Post-pure, ◌>>=◌}
use app_elfloader.Word.{sub64, Safe-sub64}
use app_elfloader.Word.Bits.{IsPowerOfTwo}
use app_elfloader.Elf.Header.{et_dyn}
use app_elfloader.Elf.Source.{IsSource}
use app_elfloader.Elf.Image.{Image, needs_interp}
use app_elfloader.Elf.Image.Classify.{InterpOk}
use app_elfloader.Elf.Image.Parse.{IsWellFormed}
use app_elfloader.Elf.Interp.{Safe-interp_path}
use app_elfloader.Layout.Plan.Arrange.{Arranged-le}
use app_elfloader.Layout.Plan.Sound.{IsSound}
use app_elfloader.Loader.{Vm, Loaded, entry_is_executable, check_stack_request}
use app_elfloader.Loader.Range.{KeepsHeld, outside-KeepsHeld}
use app_elfloader.Loader.Memory.{Cell, IsVm, AllFree}
use app_elfloader.Program.{
  Opened, Opener, LoadedProgram, entry, interp_base, interp_wanted, load_wanted, load_program,
}
use app_elfloader.Program.Took.{
  IsOpener, Took, Safe-entry_is_executable, KeepsHeld-trans, Post-load_from,
}
use app_elfloader.Program.Interp.{Wanted, Post-opened, Safe-parse_opened, Post-load_wanted}

-- Which images ask for an interpreter.
abbrev Wants : Image → Option (List ℕ) → Type 0
Wants image none = needs_interp image ≡ false
Wants image (some path) = needs_interp image ≡ true

-- A loaded program: its image and that of its interpreter, each where its plan says.
pub record IsProgram (native page_size : ℕ) (v : ℕ → Cell) (q : LoadedProgram) (v' : ℕ → Cell)
    : Type 0 where
  pub size : Option ℕ
  pub well_formed : IsWellFormed native page_size size q.image
  pub plain_stack : q.image.exec_stack ≡ false
  pub sound : IsSound page_size q.image q.main.plan
  pub was_free : AllFree v q.main.plan.reserve_addr q.main.plan.reserve_len
  pub keeps : KeepsHeld v v'
  -- Without an interpreter the program starts at its own entry, and the base is 0.
  pub direct :
      needs_interp q.image ≡ false
      → (q.interp ≡ none)
        × (entry q ≡ q.image.ehdr.e_entry + q.main.plan.bias)
        × (interp_base q ≡ 0)
  -- With one it starts at the interpreter's, and the base is the interpreter's bias.
  pub through :
      needs_interp q.image ≡ true
      → (i : Image × Loaded) × (q.interp ≡ some i)
        × (i.0.ehdr.e_type ≡ et_dyn)
        × (needs_interp i.0 ≡ false)
        × IsSound page_size i.0 i.1.plan
        × (interp_base q ≡ i.1.plan.bias)
        × (entry q ≡ i.0.ehdr.e_entry + interp_base q)

module _ {S : Type 0} {vm : Vm S} {view : S → ℕ → Cell} (laws : IsVm vm view) {opener : Opener S}
    (opening : IsOpener opener view) (reserve : ℕ → Bool) (native : ℕ)
    (p : IsPowerOfTwo vm.page_size) where
  found-IsProgram :
      (image : Image) {size : Option ℕ} (main : Loaded) (wanted : Option (List ℕ))
      (found : Option (Image × Loaded)) (v v1 v2 : ℕ → Cell)
      → IsWellFormed native vm.page_size size image
      → image.exec_stack ≡ false
      → Took vm.page_size image v main v1
      → Wants image wanted
      → Wanted laws opening reserve native p image v1 main wanted found v2
      → IsProgram native vm.page_size v
          (record { image = image; main = main; interp = found; interp_path = wanted })
          v2
  unfolding Wanted entry interp_base
  found-IsProgram image {size} main none found v v1 v2 w plain took no_interp (is_none, same) =
      record {
        size = size;
        well_formed = w;
        plain_stack = plain;
        sound = took.sound;
        was_free = took.was_free;
        keeps = subst (KeepsHeld v) (sym same) (outside-KeepsHeld _ _ took.was_free took.outside);
        direct = λ _. (is_none, rw is_none took.sound.entry_biased, rw is_none refl);
        through = λ h. absurd (false≢true (sym no_interp ∙ h));
      }
  found-IsProgram image {size} main (some path) found v v1 v2 w plain took an_interp
        (i, is_some, is_interp) =
      record {
        size = size;
        well_formed = w;
        plain_stack = plain;
        sound = took.sound;
        was_free = took.was_free;
        keeps =
            KeepsHeld-trans (outside-KeepsHeld _ _ took.was_free took.outside)
              (outside-KeepsHeld _ _ is_interp.took.was_free is_interp.took.outside);
        direct = λ h. absurd (false≢true (sym h ∙ an_interp));
        through = λ _. (
          i,
          is_some,
          is_interp.independent,
          is_interp.last,
          is_interp.took.sound,
          rw is_some refl,
          rw is_some is_interp.took.sound.entry_biased,
        );
      }

  Post-interp_wanted :
      (image : Image) (o : Opened) (s : S)
      → IsWellFormed native vm.page_size o.src.size image
      → IsSource o.src
      → Post
          (λ wanted s'. Wants image wanted × (view s' ≡ view s))
          (λ e s'. view s' ≡ view s)
          (interp_wanted vm reserve image o s)
  unfolding interp_wanted
  Post-interp_wanted image o s w source =
      Post-if (needs_interp image) _ _ s
        (λ t.
          Post-pure _ _ s
            (Safe-interp_path reserve image o.src λ ph at.
              let interp = subst (InterpOk o.src.size) at w.interp_ok in
              Safe-map
                (source.fills ph.p_offset ph.p_filesz interp.offset_fits
                  (omega (arith, interp.few_bytes)))
                λ _ _. tt)
            (λ path _. Post-done (some path) s (t, refl)) (λ e. refl))
        (λ f. Post-done none s (f, refl))

  -- On an address space that keeps the laws, with pages of a power of two, and an opener that leaves
  -- memory alone and whose sources read one file, `load_program` does not panic. When it succeeds, the
  -- image is well-formed and asks for no executable stack, its range was free before, nothing that was
  -- held before has changed, and the program enters its interpreter, a position-independent image that
  -- asks for no interpreter itself, exactly if the image asks for one: at the interpreter's entry plus the
  -- base, which is the interpreter's bias; without one it enters at its own entry, biased, with base 0.
  -- When it fails, no byte that was held before has changed.
  pub load_program-IsProgram :
      (path : List ℕ) (s : S)
      → Post
          (λ q s'. IsProgram native vm.page_size (view s) q (view s'))
          (λ e s'. KeepsHeld (view s) (view s'))
          (load_program vm reserve native opener path s)
  unfolding load_program check_stack_request
  load_program-IsProgram path s =
      Post-opened laws opening reserve native p
        (λ q v'. IsProgram native vm.page_size (view s) q v') (KeepsHeld (view s)) _ path s
        (λ o s1 same reader file.
          let unchanged = λ (e : Error). subst (KeepsHeld (view s)) (sym same) (λ x kept. refl) in
          Post-pure _ _ s1 (Safe-parse_opened laws opening reserve native p o reader)
            (λ image w.
              Post-pure _ _ s1 (Safe-reject_if _ _)
                (λ _ plain.
                  Post-bind _ _ s1 (Post-interp_wanted image o s1 w reader)
                    (λ wanted s2 (wants, same').
                      Post-bind _ _ s2 (Post-load_from laws reserve native p image o.fd s2 w file.1)
                        (λ main s3 took.
                          finish image main wanted s2 s3 w plain wants (same' ∙ same) took)
                        (λ e s3 kept. subst (λ v. KeepsHeld v (view s3)) (same' ∙ same) kept))
                    (λ e s2 same'.
                      subst (KeepsHeld (view s)) (sym (same' ∙ same)) (λ x kept. refl)))
                unchanged)
            unchanged)
        (λ x kept. refl)
    where
      finish :
          (image : Image) {size : Option ℕ} (main : Loaded) (wanted : Option (List ℕ)) (s2 s3 : S)
          → IsWellFormed native vm.page_size size image
          → image.exec_stack ≡ false
          → Wants image wanted
          → view s2 ≡ view s
          → Took vm.page_size image (view s2) main (view s3)
          → Post
              (λ q s'. IsProgram native vm.page_size (view s) q (view s'))
              (λ e s'. KeepsHeld (view s) (view s'))
              ((lift (sub64 main.plan.end main.plan.base) >>= λ shown.
                  lift (entry_is_executable image main.plan) >>= λ warned.
                  load_wanted vm reserve native opener main wanted >>= λ interp. lift (
                    ok (record {
                      image = image;
                      main = main;
                      interp = interp;
                      interp_path = wanted;
                    })))
                s3)
      finish image {size} main wanted s2 s3 w plain wants same took2 =
          let took : Took vm.page_size image (view s) main (view s3) =
            subst (λ v. Took vm.page_size image v main (view s3)) same took2 in
          let kept : KeepsHeld (view s) (view s3) =
            outside-KeepsHeld _ _ took.was_free took.outside in
          Post-pure _ _ s3
            (Safe-sub64 main.plan.end main.plan.base (Arranged-le took.sound.arranged))
            (λ shown _.
              Post-pure _ _ s3 (Safe-entry_is_executable image main.plan took.sound)
                (λ warned _.
                  Post-bind _ _ s3
                    (Post-load_wanted laws opening reserve native p image (view s) main wanted s3
                      took)
                    (λ found s4 is_found. Post-done _ s4 (
                      found-IsProgram image main wanted found (view s) (view s3) (view s4) w plain
                        took wants is_found))
                    (λ e s4 h. h))
                (λ e. kept))
            (λ e. kept)
