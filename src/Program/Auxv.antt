-- ===== src/Program/Auxv.antt =====
-- What the auxiliary vector of a loaded program says.
use app_elfloader.Prelude.{
  ℕ, ◌+◌, ◌<◌, ◌≡◌, refl, sym, subst, Bool, true, false, Option, none, some, some-injective, List,
  get_elem?,
}
use app_elfloader.Outcome.{Outcome, ok, err, panic, Safe, returns, fails}
use app_elfloader.Action.{lift, Post, Post-bind, Post-pure, Post-done, ◌>>=◌}
use app_elfloader.Word.Bits.{IsPowerOfTwo}
use app_elfloader.Elf.Header.{Phdr}
use app_elfloader.Elf.Image.{Image, needs_interp}
use app_elfloader.Layout.View.{phdr_addr, Safe-phdr_addr, NamesTable, Shows, load_shown}
use app_elfloader.Loader.{Vm, Loaded}
use app_elfloader.Loader.Memory.{Cell, IsVm}
use app_elfloader.Loader.Range.{KeepsHeld}
use app_elfloader.Auxv.{AuxvSpec}
use app_elfloader.Program.{
  LoadedProgram, Opener, Environment, auxv_for, auxv, plain_auxv, to_option, load_program,
}
use app_elfloader.Program.Took.{IsOpener}
use app_elfloader.Program.Sound.{IsProgram, load_program-IsProgram}

-- Every byte of the file that a load of the image takes is planned at its link address plus `base`.
abbrev pub IsBaseOf : Image × Loaded → ℕ → Type 0
IsBaseOf i base =
    (n j : ℕ) (l : Phdr)
    → get_elem? i.0.loads n ≡ some j
    → get_elem? i.0.phdrs j ≡ some l
    → (k : ℕ) → k < l.p_filesz
    → Shows i.1.plan.segments (l.p_offset + k) (l.p_vaddr + base + k)

-- The vector describes the program as it was loaded.
pub record Describes (q : LoadedProgram) (env : Environment) (spec : AuxvSpec) : Type 0 where
  -- AT_ENTRY is the image's entry, moved as its segments are.
  pub main_base : ℕ
  pub main_there : IsBaseOf (q.image, q.main) main_base
  pub entry : spec.entry ≡ q.image.ehdr.e_entry + main_base
  -- AT_BASE is where the interpreter is, or 0 without one.
  pub direct : needs_interp q.image ≡ false → spec.base ≡ 0
  pub through :
      needs_interp q.image ≡ true
      → (i : Image × Loaded) × (q.interp ≡ some i) × IsBaseOf i spec.base
  -- AT_PHDR is where the program header table is.
  pub table :
      NamesTable q.image
      → (addr : ℕ) → spec.phdr ≡ some addr
      → Shows q.main.plan.segments q.image.ehdr.e_phoff addr
  pub count : (spec.phnum ≡ q.image.ehdr.e_phnum) × (spec.phent ≡ q.image.ehdr.e_phentsize)
  pub user : (spec.uid ≡ env.uid) × (spec.gid ≡ env.gid)
  pub capabilities : (spec.hwcap, spec.hwcap2) ≡ env.hwcap

auxv-Describes :
    {native page_size : ℕ} (aarch64 : Bool) (q : LoadedProgram) (env : Environment)
    {v v' : ℕ → Cell}
    → IsProgram native page_size v q v'
    → Safe (Describes q env) (auxv aarch64 q env)
unfolding auxv auxv_for
auxv-Describes aarch64 q env {v' = v'} loaded =
    from (phdr_addr q.main.plan q.image) (Safe-phdr_addr q.main.plan loaded.sound)
  where
    described :
        (found : Option ℕ)
        → (NamesTable q.image
            → (addr : ℕ) → found ≡ some addr
            → Shows q.main.plan.segments q.image.ehdr.e_phoff addr)
        → Describes q env (record (plain_auxv aarch64 q env) { phdr = found })
    described found shows = record {
      main_base = q.main.plan.bias;
      main_there = load_shown loaded.sound.arranged;
      entry = loaded.sound.entry_biased;
      direct = λ no_interp. (loaded.direct no_interp).2;
      through = λ interp.
          let (i, same, _, _, sound, base, _) = loaded.through interp in
          (i, same, subst (IsBaseOf i) (sym base) (load_shown sound.arranged));
      table = shows;
      count = (refl, refl);
      user = (refl, refl);
      capabilities = refl;
    }

    from :
        (o : Outcome (Unit {0}) ℕ)
        → Safe (λ addr. NamesTable q.image → Shows q.main.plan.segments q.image.ehdr.e_phoff addr) o
        → Safe (Describes q env) (auxv_for (plain_auxv aarch64 q env) (to_option o))
    from (ok a) (returns shows) = returns (
        described (some a) λ names addr e.
          subst (Shows q.main.plan.segments q.image.ehdr.e_phoff) (some-injective a addr e)
            (shows names))
    from (err e) fails = returns (described none λ names addr e. cc)
    from panic never = elim never [ ]

module _ {S : Type 0} {vm : Vm S} {view : S → ℕ → Cell} (laws : IsVm vm view) {opener : Opener S}
    (opening : IsOpener opener view) (reserve : ℕ → Bool) (native : ℕ)
    (p : IsPowerOfTwo vm.page_size) where
  -- On an address space and an opener that keep their laws, with a page size that is a power of two:
  -- loading a program and making its auxiliary vector does not panic, and on failure keeps what was held.
  -- When it succeeds, every byte of the file that a load of the image takes is planned at its link address
  -- plus one base, and AT_ENTRY is the image's entry plus that base; AT_BASE is 0 without an interpreter,
  -- and with one it is the base of the interpreter in the same sense; AT_PHDR, where it is given and the
  -- image's PT_PHDR entry is where a load puts the table, is an address at which a segment shows the
  -- table; AT_PHNUM and AT_PHENT are the image's, and the user, group and capabilities the environment's.
  pub load_program-Describes :
      (aarch64 : Bool) (env : Environment) (path : List ℕ) (s : S)
      → Post
          (λ (r : LoadedProgram × AuxvSpec) s'. Describes r.0 env r.1)
          (λ e s'. KeepsHeld (view s) (view s'))
          ((load_program vm reserve native opener path >>= λ q.
              lift (auxv aarch64 q env) >>= λ spec. lift (ok (q, spec)))
            s)
  load_program-Describes aarch64 env path s =
      Post-bind _ _ s (load_program-IsProgram laws opening reserve native p path s)
        (λ q s1 loaded.
          Post-pure _ _ s1 (auxv-Describes aarch64 q env loaded)
            (λ spec describes. Post-done (q, spec) s1 describes) (λ e. loaded.keeps))
        (λ e s1 kept. kept)
