-- ===== src/App.antt =====
-- rust/src/app.rs: which program the command line names. `run` is a sequence of calls on the system
-- and is left out.
use app_elfloader.Prelude.{
  All, ◌∙◌, sym, ℕ, ◌+◌, ◌≤◌, ◌≡◌, ◌⊎◌, inl, inr, refl, Bool, true, false, not, ◌||◌, Option, none,
  some, List, [], ◌∷◌, length, drop, get_elem?, ◌==◌, ltb, if◌then◌else◌, arith, le→not-ltb,
}
use mathlib.Core.Bool.{false≢true}
use app_elfloader.Prelude.Int.{ℤ, pos, negsuc}
use app_elfloader.Outcome.{Outcome, ok, err, panic, reject_if, index, ◌>>=◌, ◌>>◌}
use app_elfloader.Err.{Error, einval}
use app_elfloader.Util.{basename, is_bare_name, path_candidates}
use app_elfloader.Sys.Config.{
  Cfg, IsFirst, is_program, Located, getenv, locate_in_path, locate_in_path-Located,
}

pub record Target : Type 0 where
  pub path : List ℕ
  pub progname : List ℕ
  pub rest : List (List ℕ)

abbrev pub initrd_path : List ℕ
initrd_path = b'<' ∷ b'i' ∷ b'n' ∷ b'i' ∷ b't' ∷ b'r' ∷ b'd' ∷ b'>' ∷ []

abbrev is_empty {ℓ} : {A : Type ℓ} → List A → Bool
is_empty [] = true
is_empty (x ∷ xs) = false

-- `APPELFLOADER_CUSTOMAPPNAME`: the command line names the program.
unfoldable pub split_named : Bool → List (List ℕ) → Outcome Error Target
split_named initrd args = do
  reject_if (ltb (length args) 2) einval
  named ← index args 1
  ok (record {
    path = if initrd then initrd_path else named;
    progname = if initrd then named else basename named;
    rest = drop 2 args;
  })

unfoldable pub split_built_in : Bool → List ℕ → List (List ℕ) → Outcome Error Target
split_built_in true p args = do
  reject_if (is_empty args) einval
  kernel ← index args 0
  ok (record { path = initrd_path; progname = kernel; rest = drop 1 args })
split_built_in false p args = do
  reject_if (is_empty args) einval
  reject_if (is_empty p) einval
  ok (record { path = p; progname = basename p; rest = drop 1 args })

unfoldable pub split_command_line : Cfg → List (List ℕ) → Outcome Error Target
unfolding split_named split_built_in
split_command_line c args =
    let initrd = c.vfsexec == 0 in
    if not (c.customappname == 0)
    then split_named initrd args
    else split_built_in initrd c.vfsexec_path args

abbrev path_name : List ℕ
path_name = b'P' ∷ b'A' ∷ b'T' ∷ b'H' ∷ []

abbrev with_path : Target → Option (List ℕ) → Target
with_path t none = t
with_path t (some full) = record { path = full; progname = t.progname; rest = t.rest }

abbrev search : (ℕ → Bool) → (List ℕ → ℤ) → Target → Option (List ℕ) → Target
search reserve path_is_exec t none = t
search reserve path_is_exec t (some path_env) =
    with_path t (locate_in_path reserve path_is_exec t.path path_env)

unfoldable pub resolve :
    (ℕ → Bool) → (List ℕ → Option (List ℕ)) → (List ℕ → ℤ) → Cfg → Target → Target
unfolding getenv locate_in_path
resolve reserve c_getenv path_is_exec c t =
    if c.envpath == 0 || not (is_bare_name t.path)
    then t
    else search reserve path_is_exec t (getenv reserve c_getenv c path_name)

-- What `elfrs_main` returns for the outcome of `run`.
unfoldable pub exit_code : Outcome Error (Unit {0}) → Outcome Error ℤ
exit_code (ok _) = ok (pos 0)
exit_code (err e) =
    ok (elim e.errno [ pos n ↦ if n == 0 then pos 1 else pos n | negsuc n ↦ negsuc n ])
exit_code panic = panic

-- Which argument names the program: the second, or the kernel's own.
abbrev name_index : Bool → ℕ
name_index custom = if custom then 1 else 0

-- The target of a command line, for a program that it names or not, in the initrd or not.
pub record IsTarget (custom initrd : Bool) (built_in : List ℕ) (args : List (List ℕ)) (t : Target)
    : Type 0 where
  pub arg : List ℕ
  pub present : get_elem? args (name_index custom) ≡ some arg
  pub remaining : t.rest ≡ drop (name_index custom + 1) args
  pub path_of : t.path ≡ (if initrd then initrd_path else if custom then arg else built_in)
  pub progname_of : t.progname ≡ (if initrd then arg else basename t.path)

abbrev pub MissesProgram : Bool → Bool → List ℕ → List (List ℕ) → Type 0
MissesProgram custom initrd built_in args =
    (length args ≤ name_index custom) ⊎ ((custom ≡ false) × (initrd ≡ false) × (built_in ≡ []))

abbrev Splits : Bool → Bool → List ℕ → List (List ℕ) → Outcome Error Target → Type 0
Splits custom initrd built_in args result =
    (MissesProgram custom initrd built_in args × (result ≡ err einval))
    ⊎ ((t : Target) × (result ≡ ok t) × IsTarget custom initrd built_in args t)

split_named-Splits :
    (initrd : Bool) (p : List ℕ) (args : List (List ℕ))
    → Splits true initrd p args (split_named initrd args)
unfolding split_named reject_if index ◌>>=◌
split_named-Splits initrd p [] = inl (inl (omega arith), refl)
split_named-Splits initrd p (a ∷ []) = inl (inl (omega arith), refl)
split_named-Splits true p (a ∷ b ∷ rest) = inr (
  _,
  rw (le→not-ltb (length (a ∷ b ∷ rest)) 2 (omega arith)) refl,
  record { arg = b; present = refl; remaining = refl; path_of = refl; progname_of = refl },
)
split_named-Splits false p (a ∷ b ∷ rest) = inr (
  _,
  rw (le→not-ltb (length (a ∷ b ∷ rest)) 2 (omega arith)) refl,
  record { arg = b; present = refl; remaining = refl; path_of = refl; progname_of = refl },
)

split_built_in-Splits :
    (initrd : Bool) (p : List ℕ) (args : List (List ℕ))
    → Splits false initrd p args (split_built_in initrd p args)
unfolding split_built_in reject_if index ◌>>=◌
split_built_in-Splits true p [] = inl (inl (omega arith), refl)
split_built_in-Splits false p [] = inl (inl (omega arith), refl)
split_built_in-Splits true p (a ∷ rest) = inr (
  _,
  refl,
  record { arg = a; present = refl; remaining = refl; path_of = refl; progname_of = refl },
)
split_built_in-Splits false [] (a ∷ rest) = inl (inr (refl, refl, refl), refl)
split_built_in-Splits false (c ∷ p) (a ∷ rest) = inr (
  _,
  refl,
  record { arg = a; present = refl; remaining = refl; path_of = refl; progname_of = refl },
)

-- The argument that names the program is the second with a custom name, and the kernel's own without.
-- A command line without it is refused with EINVAL, and so is an empty compiled-in path where that one
-- is used. Any other gives a target with the arguments behind that one: in the initrd the path is
-- `<initrd>` and the program name the whole argument; in the file system the path is the argument with
-- a custom name and the compiled-in path without, and the program name is the basename of the path.
pub split_command_line-IsTarget :
    (c : Cfg) (args : List (List ℕ))
    → let custom = not (c.customappname == 0) in
      let initrd = c.vfsexec == 0 in
      (MissesProgram custom initrd c.vfsexec_path args × (split_command_line c args ≡ err einval))
      ⊎ ((t : Target) × (split_command_line c args ≡ ok t)
          × IsTarget custom initrd c.vfsexec_path args t)
unfolding split_command_line
split_command_line-IsTarget c args = by_custom (not (c.customappname == 0))
  where
    initrd : Bool
    initrd = c.vfsexec == 0

    by_custom :
        (custom : Bool)
        → Splits custom initrd c.vfsexec_path args
            (if custom then split_named initrd args else split_built_in initrd c.vfsexec_path args)
    by_custom true = split_named-Splits initrd c.vfsexec_path args
    by_custom false = split_built_in-Splits initrd c.vfsexec_path args

-- What resolving a target gives. It stays where the build does not look at `PATH`, where its path is
-- no bare name, where `PATH` is not set, and where no candidate is a program; where there is one, the
-- first replaces the path.
pub data Resolved (reserve : ℕ → Bool) (c_getenv : List ℕ → Option (List ℕ))
    (path_is_exec : List ℕ → ℤ) (c : Cfg) (t : Target) : Target → Type 0 where
  switched_off : (c.envpath == 0) ≡ true → Resolved reserve c_getenv path_is_exec c t t
  not_bare : is_bare_name t.path ≡ false → Resolved reserve c_getenv path_is_exec c t t
  no_path :
      getenv reserve c_getenv c path_name ≡ none → Resolved reserve c_getenv path_is_exec c t t
  no_program :
      {path_env : List ℕ}
      → getenv reserve c_getenv c path_name ≡ some path_env
      → All
          (λ cand. is_program reserve path_is_exec cand ≡ false)
          (path_candidates reserve t.path path_env)
      → Resolved reserve c_getenv path_is_exec c t t
  moved :
      {path_env full : List ℕ}
      → (c.envpath == 0) ≡ false
      → is_bare_name t.path ≡ true
      → getenv reserve c_getenv c path_name ≡ some path_env
      → IsFirst (is_program reserve path_is_exec) full (path_candidates reserve t.path path_env)
      → Resolved reserve c_getenv path_is_exec c t
          (record { path = full; progname = t.progname; rest = t.rest })

-- The name under which a program runs and its arguments stay as the command line says. In a build that
-- looks at `PATH`, for a bare name and where `PATH` is set, the path becomes the first candidate that
-- is a program; it is kept where one of these fails, or no candidate is a program.
pub resolve-Resolved :
    (reserve : ℕ → Bool) (c_getenv : List ℕ → Option (List ℕ)) (path_is_exec : List ℕ → ℤ) (c : Cfg)
    (t : Target)
    → Resolved reserve c_getenv path_is_exec c t (resolve reserve c_getenv path_is_exec c t)
unfolding resolve
resolve-Resolved reserve c_getenv path_is_exec c t =
    by_tests (c.envpath == 0) refl (is_bare_name t.path) refl
  where
    found :
        {path_env : List ℕ} (result : Option (List ℕ))
        → (c.envpath == 0) ≡ false
        → is_bare_name t.path ≡ true
        → getenv reserve c_getenv c path_name ≡ some path_env
        → Located reserve path_is_exec t.path path_env result
        → Resolved reserve c_getenv path_is_exec c t (with_path t result)
    found result looks bare is_env (inl (other, e)) = absurd (false≢true (sym other ∙ bare))
    found none looks bare is_env (inr (_, refused)) = no_program is_env refused
    found (some full) looks bare is_env (inr (_, first)) = moved looks bare is_env first

    by_env :
        (env : Option (List ℕ))
        → getenv reserve c_getenv c path_name ≡ env
        → (c.envpath == 0) ≡ false
        → is_bare_name t.path ≡ true
        → Resolved reserve c_getenv path_is_exec c t (search reserve path_is_exec t env)
    by_env none e looks bare = no_path e
    by_env (some path_env) e looks bare =
        found _ looks bare e (locate_in_path-Located reserve path_is_exec t.path path_env)

    by_tests :
        (off : Bool)
        → (c.envpath == 0) ≡ off
        → (bare : Bool) → is_bare_name t.path ≡ bare
        → Resolved reserve c_getenv path_is_exec c t (
            if off || not bare
            then t
            else search reserve path_is_exec t (getenv reserve c_getenv c path_name))
    by_tests true e bare b = switched_off e
    by_tests false e false b = not_bare b
    by_tests false e true b = by_env (getenv reserve c_getenv c path_name) refl e b
