-- ===== src/Tests/Auxv.antt =====
-- The initial stack of `ls -l` with one environment string.
use app_elfloader.Prelude.{
  ℕ, ◌≤◌, ◌<◌, ◌≡◌, ◌≢◌, refl, false, some, none, Option, List, [], ◌∷◌, arith,
}
use app_elfloader.Outcome.{Outcome, ok, err, panic, ◌>>=◌}
use app_elfloader.Err.{Error}
use app_elfloader.Word.{add64, sub64, mul64}
use app_elfloader.Elf.Align.{align_down}
use app_elfloader.Auxv.{
  AuxvSpec, StackLayout, build_stack, check_arg_env_size, sum_sizes, push_strings, push_platform,
  push_cstr, push_bytes, push_all, align, put_block, block_size, auxv_entries, write_words,
}
use app_elfloader.Auxv.Build.{IsStackOf}
use app_elfloader.Auxv.Sound.{build_stack-IsStackOf}
use app_elfloader.Sys.AppStack.{AppStack, app_stack, app_stack-IsWriter}
use app_elfloader.Tests.{always}

abbrev small_stack : AppStack
small_stack = record { lo = 65536; hi = 131072; memory = λ x. 255 }

abbrev arguments : List (List ℕ)
arguments = (b'l' ∷ b's' ∷ []) ∷ (b'-' ∷ b'l' ∷ []) ∷ []

abbrev environment : List (List ℕ)
environment = (b'A' ∷ b'=' ∷ b'1' ∷ []) ∷ []

abbrev spec : AuxvSpec
spec = record {
  phdr = some 4194368;
  phent = 56;
  phnum = 3;
  base = 0;
  entry = 4194536;
  pagesz = 4096;
  uid = 0;
  gid = 0;
  hwcap = 0;
  hwcap2 = 0;
  clktck = 100;
  secure = false;
  random = 1 ∷ 2 ∷ 3 ∷ 4 ∷ 5 ∷ 6 ∷ 7 ∷ 8 ∷ 9 ∷ 10 ∷ 11 ∷ 12 ∷ 13 ∷ 14 ∷ 15 ∷ 16 ∷ [];
  platform = b'x' ∷ b'8' ∷ b'6' ∷ [];
  execfn = b'l' ∷ b's' ∷ [];
  sysinfo_ehdr = none;
  minsigstksz = none;
}

small_stack_ordered : app_stack.bottom small_stack ≤ app_stack.top small_stack
unfolding app_stack
small_stack_ordered = omega arith

small_stack_room : app_stack.top small_stack < 18446744073709551616
unfolding app_stack
small_stack_room = omega arith

build_stack-IsStackOf_example :
    (build_stack always app_stack small_stack arguments environment spec ≢ panic)
    × ((w' : AppStack) (layout : StackLayout)
        → build_stack always app_stack small_stack arguments environment spec ≡ ok (w', layout)
        → IsStackOf app_stack (λ s. s.memory) small_stack arguments environment spec w' layout)
build_stack-IsStackOf_example =
    build_stack-IsStackOf app_stack (λ s. s.memory) app_stack-IsWriter always small_stack arguments
      environment spec small_stack_ordered small_stack_room (omega arith, (omega arith, tt))
      (omega arith, tt)

abbrev returned_sp : Outcome Error (AppStack × StackLayout) → Option ℕ
returned_sp (ok (w, layout)) = some layout.sp
returned_sp (err e) = none
returned_sp panic = none

-- It does return, and the stack pointer is where counting by hand puts it.
stack_is_built :
    returned_sp (build_stack always app_stack small_stack arguments environment spec) ≡ some 130672
unfolding build_stack check_arg_env_size sum_sizes push_strings push_platform push_cstr push_bytes
    push_all align put_block block_size auxv_entries write_words app_stack align_down add64 sub64
    mul64 ◌>>=◌
stack_is_built = refl
