-- ===== src/Tests/App.antt =====
-- The theorem on the command line at a kernel that starts `/bin/sh -c`.
use app_elfloader.Prelude.{ℕ, ◌≡◌, ◌⊎◌, refl, true, false, List, [], ◌∷◌, Option, some}
use app_elfloader.Prelude.Int.{ℤ, pos}
use app_elfloader.Tests.{always}
use app_elfloader.Outcome.{ok, err, ◌>>=◌}
use app_elfloader.Util.{basename, rposition}
use app_elfloader.Err.{einval}
use app_elfloader.Sys.Config.{Cfg}
use app_elfloader.App.{
  Resolved, resolve, resolve-Resolved, Target, IsTarget, MissesProgram, split_command_line,
  split_command_line-IsTarget,
}

abbrev named_files : Cfg
named_files = record {
  stack_len = 0;
  page_size = 4096;
  uid = 0;
  gid = 0;
  have_vfs = 1;
  have_mmap = 1;
  have_vmem = 1;
  have_environ = 1;
  have_random = 1;
  have_pthread = 1;
  vfsexec = 1;
  customappname = 1;
  envpath = 1;
  envpwd = 1;
  execbit = 1;
  debug = 0;
  vfsexec_path = [];
  vdso_addr = 0;
}

abbrev command_line : List (List ℕ)
command_line = (b'k' ∷ []) ∷ (b'/' ∷ b's' ∷ b'h' ∷ []) ∷ (b'-' ∷ b'c' ∷ []) ∷ []

splits_sh :
    split_command_line named_files command_line
    ≡ ok (record {
      path = b'/' ∷ b's' ∷ b'h' ∷ [];
      progname = b's' ∷ b'h' ∷ [];
      rest = (b'-' ∷ b'c' ∷ []) ∷ [];
    })
unfolding split_command_line ◌>>=◌ basename rposition
splits_sh = refl

split_command_line-IsTarget_example :
    (MissesProgram true false [] command_line
      × (split_command_line named_files command_line ≡ err einval))
    ⊎ ((t : Target) × (split_command_line named_files command_line ≡ ok t)
        × IsTarget true false [] command_line t)
split_command_line-IsTarget_example = split_command_line-IsTarget named_files command_line

abbrev bare_sh : Target
bare_sh = record { path = b's' ∷ b'h' ∷ []; progname = b's' ∷ b'h' ∷ []; rest = [] }

abbrev path_is_bin : List ℕ → Option (List ℕ)
path_is_bin name = some (b'/' ∷ b'b' ∷ b':' ∷ b'/' ∷ b'c' ∷ [])

abbrev all_run : List ℕ → ℤ
all_run s = pos 0

resolve-Resolved_example :
    Resolved always path_is_bin all_run named_files bare_sh
      (resolve always path_is_bin all_run named_files bare_sh)
resolve-Resolved_example = resolve-Resolved always path_is_bin all_run named_files bare_sh
