-- ===== src/Auxv/Sizes.antt =====
-- The sizes that `build_stack` computes.
use app_elfloader.Prelude.{
  ℕ, suc, ◌+◌, ◌*◌, ◌/◌, ◌≤◌, ◌<◌, ◌≡◌, max, refl, List, [], ◌∷◌, ◌++◌, length, length-append,
  Option, none, some, arith, ltb, not-ltb→le, All, All-append,
}
use app_elfloader.Outcome.{
  Safe, returns, Safe-bind, Safe-bind_is, Safe-map, Safe-ok_or, Safe-reject_if,
}
use app_elfloader.Word.{checked_add, checked_add-eq-some, Safe-add64, Safe-mul64}
use app_elfloader.Auxv.{
  AuxvSpec, sum_sizes, check_arg_env_size, auxv_entries, put_some, put_phdr, as_u64, block_words,
  block_size, flatten, arg_max,
}

-- A Rust slice is shorter than 2 ^ 63 bytes.
abbrev pub IsShort : List ℕ → Type 0
IsShort s = length s < 9223372036854775808

-- Every string counts for its pointer and its terminator.
Safe-sum_sizes :
    (ss : List (List ℕ)) (len : ℕ)
    → All IsShort ss
    → Safe (λ r. len + 9 * length ss ≤ r) (sum_sizes ss len)
unfolding sum_sizes
Safe-sum_sizes [] len short = returns (omega arith)
Safe-sum_sizes (s ∷ ss) len short =
    Safe-bind_is _ _ (Safe-add64 (length s) 1 (omega (arith, short.0))) (
      Safe-bind _ _
        (Safe-ok_or (checked_add len (length s + 1)) _ (λ c e. (checked_add-eq-some _ _ e).0))
        λ a is_a.
          Safe-bind _ _ (Safe-ok_or (checked_add a 8) _ (λ c e. (checked_add-eq-some _ _ e).0))
            λ b is_b. Safe-map (Safe-sum_sizes ss b short.1) λ r h. omega arith)

pub Safe-check_arg_env_size :
    (argv envp : List (List ℕ)) (stack_size : ℕ)
    → All IsShort argv
    → All IsShort envp
    → Safe
        (λ r. 9 * (length argv + length envp) ≤ max arg_max (stack_size / 4))
        (check_arg_env_size argv envp stack_size)
unfolding check_arg_env_size
Safe-check_arg_env_size argv envp stack_size short_args short_env =
    Safe-bind _ _
      (Safe-sum_sizes (argv ++ envp) 0 (All-append IsShort argv envp short_args short_env))
      λ len h.
        Safe-bind _ _ (Safe-reject_if (ltb (max arg_max (stack_size / 4)) len) _)
          λ _ within. returns (omega (arith, not-ltb→le _ _ within, length-append argv envp))

put_some-length : (key : ℕ) (o : Option ℕ) → length (put_some key o) ≤ 1
put_some-length key none = omega arith
put_some-length key (some v) = omega arith

put_phdr-length : (aux : AuxvSpec) (o : Option ℕ) → length (put_phdr aux o) ≤ 3
put_phdr-length aux none = omega arith
put_phdr-length aux (some v) = omega arith

pub auxv_entries-length :
    (aux : AuxvSpec) (random_at : ℕ) (platform_at : Option ℕ) (execfn_at : ℕ)
    → length (auxv_entries aux random_at platform_at execfn_at) ≤ 21
unfolding auxv_entries
auxv_entries-length aux random_at platform_at execfn_at = omega (
  arith,
  total,
  put_phdr-length aux aux.phdr,
  length-append (put_some 15 platform_at) optional,
  put_some-length 15 platform_at,
  length-append (put_some 33 aux.sysinfo_ehdr) last,
  put_some-length 33 aux.sysinfo_ehdr,
  length-append (put_some 51 aux.minsigstksz) ((0, 0) ∷ []),
  put_some-length 51 aux.minsigstksz,
  length-append (put_phdr aux aux.phdr) always,
)
  where
    last : List (ℕ × ℕ)
    last = put_some 51 aux.minsigstksz ++ (0, 0) ∷ []

    optional : List (ℕ × ℕ)
    optional = (31, execfn_at) ∷ (put_some 33 aux.sysinfo_ehdr ++ last)

    always : List (ℕ × ℕ)
    always =
        (6, aux.pagesz)
        ∷ (7, aux.base)
        ∷ (8, 0)
        ∷ (9, aux.entry)
        ∷ (11, aux.uid)
        ∷ (12, aux.uid)
        ∷ (13, aux.gid)
        ∷ (14, aux.gid)
        ∷ (23, as_u64 aux.secure)
        ∷ (17, aux.clktck)
        ∷ (16, aux.hwcap)
        ∷ (26, aux.hwcap2)
        ∷ (25, random_at)
        ∷ (put_some 15 platform_at ++ optional)

    total :
        length (auxv_entries aux random_at platform_at execfn_at)
        ≡ length (put_phdr aux aux.phdr ++ always)
    total = refl

pub flatten-length : (av : List (ℕ × ℕ)) → length (flatten av) ≡ 2 * length av
flatten-length [] = refl
flatten-length ((k, v) ∷ rest) = omega (arith, flatten-length rest)

-- The computed size is that of the words.
pub block_words-length :
    (argc : ℕ) (argv_at envp_at : List ℕ) (av : List (ℕ × ℕ))
    → 8 * length (block_words argc argv_at envp_at av)
      ≡ (length argv_at + length envp_at + 3) * 8 + length av * 16
block_words-length argc argv_at envp_at av = omega (
  arith,
  total,
  length-append argv_at later,
  length-append envp_at (0 ∷ flatten av),
  flatten-length av,
)
  where
    later : List ℕ
    later = 0 ∷ (envp_at ++ (0 ∷ flatten av))

    total : length (block_words argc argv_at envp_at av) ≡ suc (length (argv_at ++ later))
    total = refl

pub Safe-block_size :
    (argc envc entries : ℕ)
    → argc + envc < 1152921504606846976
    → entries ≤ 21
    → Safe (λ r. r ≡ (argc + envc + 3) * 8 + entries * 16) (block_size argc envc entries)
unfolding block_size
Safe-block_size argc envc entries few h = Safe-bind_is _ _ (Safe-add64 1 argc (omega arith)) (
    Safe-bind_is _ _ (Safe-add64 (1 + argc) 1 (omega arith)) (
      Safe-bind_is _ _ (Safe-add64 (1 + argc + 1) envc (omega arith)) (
        Safe-bind_is _ _ (Safe-add64 (1 + argc + 1 + envc) 1 (omega arith)) (
          Safe-bind_is _ _ (Safe-mul64 (1 + argc + 1 + envc + 1) 8 (omega arith)) (
            Safe-bind_is _ _ (Safe-mul64 entries 16 (omega arith)) (
              Safe-map (Safe-add64 ((1 + argc + 1 + envc + 1) * 8) (entries * 16) (omega arith))
                λ r e. omega arith))))))
