-- ===== src/Auxv.antt =====
-- rust/src/auxv.rs: the auxiliary vector and the initial stack of a program.
pub mod Writer
pub mod Words
pub mod Vector
pub mod Sizes
pub mod Build
pub mod Sound
use app_elfloader.Prelude.{
  ℕ, ◌+◌, ◌-◌, ◌*◌, ◌/◌, max, Bool, true, false, not, Option, none, some, List, [], ◌∷◌, ◌++◌,
  length, ltb, if◌then◌else◌,
}
use app_elfloader.Outcome.{Outcome, ok, ok_or, reject_if, ◌>>=◌, ◌>>◌}
use app_elfloader.Word.{checked_add, checked_sub, add64, sub64, mul64}
use app_elfloader.Err.{Error, e2big, enomem}
use app_elfloader.Elf.Align.{align_down}
use app_elfloader.Elf.Header.Encode.{little_endian}

abbrev pub at_null : ℕ
at_null = 0

abbrev pub at_phdr : ℕ
at_phdr = 3

abbrev pub at_phent : ℕ
at_phent = 4

abbrev pub at_phnum : ℕ
at_phnum = 5

abbrev pub at_pagesz : ℕ
at_pagesz = 6

abbrev pub at_base : ℕ
at_base = 7

abbrev pub at_flags : ℕ
at_flags = 8

abbrev pub at_entry : ℕ
at_entry = 9

abbrev pub at_uid : ℕ
at_uid = 11

abbrev pub at_euid : ℕ
at_euid = 12

abbrev pub at_gid : ℕ
at_gid = 13

abbrev pub at_egid : ℕ
at_egid = 14

abbrev pub at_platform : ℕ
at_platform = 15

abbrev pub at_hwcap : ℕ
at_hwcap = 16

abbrev pub at_clktck : ℕ
at_clktck = 17

abbrev pub at_secure : ℕ
at_secure = 23

abbrev pub at_random : ℕ
at_random = 25

abbrev pub at_hwcap2 : ℕ
at_hwcap2 = 26

abbrev pub at_execfn : ℕ
at_execfn = 31

abbrev pub at_sysinfo_ehdr : ℕ
at_sysinfo_ehdr = 33

abbrev pub at_minsigstksz : ℕ
at_minsigstksz = 51

abbrev pub arg_max : ℕ
arg_max = 4096 * 32

abbrev pub sp_align : ℕ
sp_align = 16

-- `write` returns the writer after the write; `S` is what the writer is.
pub record StackWriter (S : Type 0) : Type 0 where
  pub top : S → ℕ
  pub bottom : S → ℕ
  pub write : S → ℕ → List ℕ → Outcome Error S

pub record AuxvSpec : Type 0 where
  pub phdr : Option ℕ
  pub phent : ℕ
  pub phnum : ℕ
  pub base : ℕ
  pub entry : ℕ
  pub pagesz : ℕ
  pub uid : ℕ
  pub gid : ℕ
  pub hwcap : ℕ
  pub hwcap2 : ℕ
  pub clktck : ℕ
  pub secure : Bool
  pub random : List ℕ
  pub platform : List ℕ
  pub execfn : List ℕ
  pub sysinfo_ehdr : Option ℕ
  pub minsigstksz : Option ℕ

pub record StackLayout : Type 0 where
  pub sp : ℕ
  pub argc_at : ℕ
  pub low_water : ℕ

-- The loop of `check_arg_env_size`.
unfoldable pub sum_sizes : List (List ℕ) → ℕ → Outcome Error ℕ
sum_sizes [] len = ok len
sum_sizes (s ∷ rest) len = do
  terminated ← add64 (length s) 1
  with_bytes ← ok_or (checked_add len terminated) e2big
  with_pointer ← ok_or (checked_add with_bytes 8) e2big
  sum_sizes rest with_pointer

unfoldable pub check_arg_env_size : List (List ℕ) → List (List ℕ) → ℕ → Outcome Error ℕ
check_arg_env_size argv envp stack_size = do
  len ← sum_sizes (argv ++ envp) 0
  reject_if (ltb (max arg_max (stack_size / 4)) len) e2big
  ok len

pub record Pusher (S : Type 0) : Type 0 where
  pub w : S
  pub sp : ℕ

module _ {S : Type 0} (sw : StackWriter S) where
  unfoldable pub push_bytes : Pusher S → List ℕ → Outcome Error (Pusher S × ℕ)
  push_bytes p bytes = do
    sp ← ok_or (checked_sub p.sp (length bytes)) e2big
    reject_if (ltb sp (sw.bottom p.w)) e2big
    w ← sw.write p.w sp bytes
    ok (record { w = w; sp = sp }, sp)

  unfoldable pub push_cstr : Pusher S → List ℕ → Outcome Error (Pusher S × ℕ)
  push_cstr p [] = push_bytes p (0 ∷ [])
  push_cstr p (c ∷ s) = do (p', _) ← push_bytes p (0 ∷ []); push_bytes p' (c ∷ s)

  unfoldable pub align : Pusher S → ℕ → Outcome Error (Pusher S)
  align p a = do sp ← align_down p.sp a; ok (record p { sp = sp })

  -- The strings from the last to the first, and their addresses in the order of the strings.
  unfoldable pub push_all : Pusher S → List (List ℕ) → Outcome Error (Pusher S × List ℕ)
  push_all p [] = ok (p, [])
  push_all p (s ∷ rest) = do
    (p', later) ← push_all p rest
    (p'', a) ← push_cstr p' s
    ok (p'', a ∷ later)

  -- `word` for each of the words.
  unfoldable pub write_words : S → ℕ → List ℕ → Outcome Error (S × ℕ)
  write_words w at [] = ok (w, at)
  write_words w at (v ∷ vs) = do
    w' ← sw.write w at (little_endian 8 v)
    next ← add64 at 8
    write_words w' next vs

  unfoldable pub push_platform : Pusher S → List ℕ → Outcome Error (Pusher S × Option ℕ)
  push_platform p [] = ok (p, none)
  push_platform p (c ∷ s) = do (p', a) ← push_cstr p (c ∷ s); ok (p', some a)

abbrev pub as_u64 : Bool → ℕ
as_u64 false = 0
as_u64 true = 1

-- `if let Some(v) = o { put(key, v) }`
abbrev pub put_some : ℕ → Option ℕ → List (ℕ × ℕ)
put_some key none = []
put_some key (some v) = (key, v) ∷ []

abbrev pub put_phdr : AuxvSpec → Option ℕ → List (ℕ × ℕ)
put_phdr aux none = []
put_phdr aux (some a) = (at_phdr, a) ∷ (at_phent, aux.phent) ∷ (at_phnum, aux.phnum) ∷ []

-- The vector, in the order of the code.
unfoldable pub auxv_entries : AuxvSpec → ℕ → Option ℕ → ℕ → List (ℕ × ℕ)
auxv_entries aux random_at platform_at execfn_at =
    put_phdr aux aux.phdr
    ++ ((at_pagesz, aux.pagesz)
        ∷ (at_base, aux.base)
        ∷ (at_flags, 0)
        ∷ (at_entry, aux.entry)
        ∷ (at_uid, aux.uid)
        ∷ (at_euid, aux.uid)
        ∷ (at_gid, aux.gid)
        ∷ (at_egid, aux.gid)
        ∷ (at_secure, as_u64 aux.secure)
        ∷ (at_clktck, aux.clktck)
        ∷ (at_hwcap, aux.hwcap)
        ∷ (at_hwcap2, aux.hwcap2)
        ∷ (at_random, random_at)
        ∷ (put_some at_platform platform_at
            ++ ((at_execfn, execfn_at)
                ∷ (put_some at_sysinfo_ehdr aux.sysinfo_ehdr
                    ++ (put_some at_minsigstksz aux.minsigstksz ++ (at_null, 0) ∷ [])))))

abbrev pub flatten : List (ℕ × ℕ) → List ℕ
flatten [] = []
flatten ((k, v) ∷ rest) = k ∷ v ∷ flatten rest

-- The words from the stack pointer up.
abbrev pub block_words : ℕ → List ℕ → List ℕ → List (ℕ × ℕ) → List ℕ
block_words argc argv_at envp_at av = argc ∷ (argv_at ++ (0 ∷ (envp_at ++ (0 ∷ flatten av))))

-- `(1 + argv.len() + 1 + envp.len() + 1) * 8 + av.len() * 16`
unfoldable pub block_size : ℕ → ℕ → ℕ → Outcome Error ℕ
block_size argc envc entries = do
  a ← add64 1 argc
  b ← add64 a 1
  c ← add64 b envc
  d ← add64 c 1
  pointers ← mul64 d 8
  pairs ← mul64 entries 16
  add64 pointers pairs

-- What the strings leave behind: the pusher, and where they stand.
pub record Pushed (S : Type 0) : Type 0 where
  pub pusher : Pusher S
  pub platform_at : Option ℕ
  pub execfn_at : ℕ
  pub random_at : ℕ
  pub envp_at : List ℕ
  pub argv_at : List ℕ

-- `reserve n` says whether the allocator can hold `n` elements more.
module _ (reserve : ℕ → Bool) {S : Type 0} (sw : StackWriter S) where
  unfoldable pub push_strings :
      Pusher S → List (List ℕ) → List (List ℕ) → AuxvSpec → Outcome Error (Pushed S)
  push_strings p0 argv envp aux = do
    (p1, platform_at) ← push_platform sw p0 aux.platform
    (p2, execfn_at) ← push_cstr sw p1 aux.execfn
    p3 ← align sw p2 sp_align
    (p4, random_at) ← push_bytes sw p3 aux.random
    reject_if (not (reserve (length envp))) enomem
    (p5, envp_at) ← push_all sw p4 envp
    reject_if (not (reserve (length argv))) enomem
    (p6, argv_at) ← push_all sw p5 argv
    ok (record {
      pusher = p6;
      platform_at = platform_at;
      execfn_at = execfn_at;
      random_at = random_at;
      envp_at = envp_at;
      argv_at = argv_at;
    })

  -- The pointer block below the strings.
  unfoldable pub put_block : Pusher S → List ℕ → ℕ → Outcome Error (S × StackLayout)
  put_block p words block = do
    low ← ok_or (checked_sub p.sp block) e2big
    sp ← align_down low sp_align
    reject_if (ltb sp (sw.bottom p.w)) e2big
    (w, _) ← write_words sw p.w sp words
    ok (w, record { sp = sp; argc_at = sp; low_water = sp })

  unfoldable pub build_stack :
      S → List (List ℕ) → List (List ℕ) → AuxvSpec → Outcome Error (S × StackLayout)
  build_stack w argv envp aux = do
    stack_size ← sub64 (sw.top w) (sw.bottom w)
    _ ← check_arg_env_size argv envp stack_size
    start ← align_down (sw.top w) sp_align
    pushed ← push_strings (record { w = w; sp = start }) argv envp aux
    let av = auxv_entries aux pushed.random_at pushed.platform_at pushed.execfn_at
    block ← block_size (length argv) (length envp) (length av)
    put_block pushed.pusher (block_words (length argv) pushed.argv_at pushed.envp_at av) block
