-- ===== src/Program.antt =====
-- rust/src/program.rs: an executable, its interpreter, and the auxiliary vector that the two imply. The
-- log messages are left out, but not what is computed for them.
pub mod Took
pub mod Interp
pub mod Sound
pub mod Auxv
use app_elfloader.Prelude.{
  ℕ, Bool, true, false, not, Option, none, some, List, [], ◌∷◌, ◌==◌, if◌then◌else◌,
}
use app_elfloader.Prelude.Int.{ℤ}
use app_elfloader.Outcome.{Outcome, ok, err, panic, reject_if, map_err}
use app_elfloader.Action.{Action, lift, or_else, ignore, modify, ◌>>=◌, ◌>>◌}
use app_elfloader.Word.{sub64}
use app_elfloader.Err.{Error, enoexec}
use app_elfloader.Elf.Header.{et_dyn}
use app_elfloader.Elf.Reject.{error_of}
use app_elfloader.Elf.Source.{ImageSource}
use app_elfloader.Elf.Image.{Image, needs_interp, parse_image}
use app_elfloader.Elf.Interp.{interp_path}
use app_elfloader.Layout.Plan.{LoadPlan}
use app_elfloader.Layout.View.{phdr_addr}
use app_elfloader.Auxv.{AuxvSpec}
use app_elfloader.Loader.{Vm, Loaded, unload, load_from, entry_is_executable, check_stack_request}

pub record Opened : Type 0 where
  pub src : ImageSource
  pub fd : Option ℤ

-- The trait `Opener`; `close` is what dropping the source does to the system.
pub record Opener (S : Type 0) : Type 0 where
  pub open_path : List ℕ → Action S Opened
  pub close : Opened → S → S

pub record LoadedProgram : Type 0 where
  pub image : Image
  pub main : Loaded
  pub interp : Option (Image × Loaded)
  pub interp_path : Option (List ℕ)

unfoldable pub entry : LoadedProgram → ℕ
entry p = elim p.interp [ none ↦ p.main.plan.entry | some i ↦ i.1.plan.entry ]

unfoldable pub interp_base : LoadedProgram → ℕ
interp_base p = elim p.interp [ none ↦ 0 | some i ↦ i.1.plan.bias ]

pub record Environment : Type 0 where
  pub page_size : ℕ
  pub platform : List ℕ
  pub execfn : List ℕ
  pub random : List ℕ
  pub uid : ℕ
  pub gid : ℕ
  pub hwcap : ℕ × ℕ
  pub sysinfo_ehdr : Option ℕ

-- `cfg!(target_arch = "aarch64")` is a parameter.
abbrev pub min_sig_stack_size : Bool → Option ℕ
min_sig_stack_size true = some 4096
min_sig_stack_size false = none

-- `phdr_addr` returns an `Option`: its error is `None`.
abbrev pub to_option : Outcome (Unit {0}) ℕ → Outcome Error (Option ℕ)
to_option (ok a) = ok (some a)
to_option (err e) = ok none
to_option panic = panic

unfoldable pub auxv_for : AuxvSpec → Outcome Error (Option ℕ) → Outcome Error AuxvSpec
auxv_for spec (ok found) = ok (record spec { phdr = found })
auxv_for spec (err e) = err e
auxv_for spec panic = panic

-- The fields that take no search.
abbrev pub plain_auxv : Bool → LoadedProgram → Environment → AuxvSpec
plain_auxv aarch64 p env = record {
  phdr = none;
  phent = p.image.ehdr.e_phentsize;
  phnum = p.image.ehdr.e_phnum;
  base = interp_base p;
  entry = p.main.plan.entry;
  pagesz = env.page_size;
  uid = env.uid;
  gid = env.gid;
  hwcap = env.hwcap.0;
  hwcap2 = env.hwcap.1;
  clktck = 100;
  secure = false;
  random = env.random;
  platform = env.platform;
  execfn = env.execfn;
  sysinfo_ehdr = env.sysinfo_ehdr;
  minsigstksz = min_sig_stack_size aarch64;
}

unfoldable pub auxv : Bool → LoadedProgram → Environment → Outcome Error AuxvSpec
unfolding interp_base auxv_for
auxv aarch64 p env = auxv_for (plain_auxv aarch64 p env) (to_option (phdr_addr p.main.plan p.image))

module _ {S : Type 0} (vm : Vm S) where
  unfoldable pub unload_interp : Option (Image × Loaded) → Action S (Unit {0})
  unload_interp none = lift (ok tt)
  unload_interp (some i) = unload vm i.1

  unfoldable pub unload_program : LoadedProgram → Action S (Unit {0})
  unload_program p = do unload_interp p.interp; unload vm p.main

  -- The source is dropped when its block ends, with a value or an error.
  unfoldable pub drop_after : Opener S → Opened → {A : Type 0} → Action S A → Action S A
  drop_after opener opened m s = let (o, s') = m s in (o, opener.close opened s')

  -- `parse` with its error turned into an errno.
  unfoldable pub parse_opened : (ℕ → Bool) → ℕ → Opened → Outcome Error Image
  parse_opened reserve native opened =
      map_err (parse_image reserve native opened.src vm.page_size) error_of

  unfoldable pub interp_wanted : (ℕ → Bool) → Image → Opened → Action S (Option (List ℕ))
  interp_wanted reserve image opened =
      if needs_interp image
      then (do path ← lift (interp_path reserve image opened.src); lift (ok (some path)))
      else lift (ok none)

  unfoldable pub load_interp : (ℕ → Bool) → ℕ → Opener S → List ℕ → Action S (Image × Loaded)
  load_interp reserve native opener path = opener.open_path path >>= λ opened.
      drop_after opener opened (do
        image ← lift (parse_opened reserve native opened)
        lift (reject_if (not (image.ehdr.e_type == et_dyn)) enoexec)
        lift (reject_if (needs_interp image) enoexec)
        loaded ← load_from vm reserve image opened.src opened.fd
        lift (ok (image, loaded)))

  -- If the interpreter cannot be loaded, the program is unloaded.
  unfoldable pub load_wanted :
      (ℕ → Bool) → ℕ → Opener S → Loaded → Option (List ℕ) → Action S (Option (Image × Loaded))
  load_wanted reserve native opener main none = lift (ok none)
  load_wanted reserve native opener main (some path) =
      or_else (do i ← load_interp reserve native opener path; lift (ok (some i))) (unload vm main)

  unfoldable pub load_program : (ℕ → Bool) → ℕ → Opener S → List ℕ → Action S LoadedProgram
  load_program reserve native opener path = opener.open_path path >>= λ opened.
      drop_after opener opened (do
        image ← lift (parse_opened reserve native opened)
        lift (check_stack_request image)
        wanted ← interp_wanted reserve image opened
        main ← load_from vm reserve image opened.src opened.fd
        shown ← lift (sub64 main.plan.end main.plan.base)
        warned ← lift (entry_is_executable image main.plan)
        interp ← load_wanted reserve native opener main wanted
        lift (ok (record { image = image; main = main; interp = interp; interp_path = wanted })))
