-- ===== src/Auxv/Sound.antt =====
-- `build_stack` as a whole: what the program finds on its stack.
use app_elfloader.Prelude.{
  ℕ, ◌+◌, ◌-◌, ◌*◌, ◌≤◌, ◌<◌, ◌≡◌, ◌≢◌, ◌∙◌, Bool, List, length, arith, All,
}
use app_elfloader.Outcome.{
  ok, panic, Safe, Safe-bind, Safe-bind_is, Safe-map, Safe-ok, Safe-ne_panic,
}
use app_elfloader.Word.{u64_end, Safe-sub64}
use app_elfloader.Elf.Align.{Safe-align_down}
use app_elfloader.Auxv.{
  StackWriter, AuxvSpec, StackLayout, Pusher, Pushed, auxv_entries, block_words, build_stack,
}
use app_elfloader.Auxv.Writer.{IsWriter, IsAt-keep, StringAt-keep, StringsAt-keep, StringsAt-length}
use app_elfloader.Auxv.Sizes.{
  IsShort, Safe-check_arg_env_size, auxv_entries-length, block_words-length, Safe-block_size,
}
use app_elfloader.Auxv.Vector.{block_words-IsBlock, auxv_entries-IsVector}
use app_elfloader.Auxv.Build.{
  sp_align-IsPowerOfTwo, IsStackOf, PlatformAt-keep, StringsPushed, Safe-push_strings,
  Safe-put_block,
}

module _ {S : Type 0} (sw : StackWriter S) (peek : S → ℕ → ℕ) (law : IsWriter sw peek)
    (reserve : ℕ → Bool) (w : S) (argv envp : List (List ℕ)) (aux : AuxvSpec) where
  Safe-build_stack :
      sw.bottom w ≤ sw.top w
      → sw.top w < u64_end
      → All IsShort argv
      → All IsShort envp
      → Safe
          (λ r. IsStackOf sw peek w argv envp aux r.0 r.1)
          (build_stack reserve sw w argv envp aux)
  unfolding build_stack
  Safe-build_stack ordered room short_args short_env =
      Safe-bind_is _ _ (Safe-sub64 (sw.top w) (sw.bottom w) ordered) (
        Safe-bind _ _
          (Safe-check_arg_env_size argv envp (sw.top w - sw.bottom w) short_args short_env)
          λ _ few.
            Safe-bind _ _ (Safe-align_down sp_align-IsPowerOfTwo (sw.top w) room) λ start is_start.
              let low : start ≤ sw.top w = omega (arith, is_start) in
              Safe-bind _ _
                (Safe-push_strings sw peek law reserve (record { w = w; sp = start }) argv envp aux
                  low room)
                λ r s.
                  Safe-bind _ _
                    (Safe-block_size (length argv) (length envp) (length (av r))
                      (omega (arith, few))
                      (auxv_entries-length aux r.random_at r.platform_at r.execfn_at))
                    λ block is_block.
                      Safe-map
                        (Safe-put_block sw peek law reserve r.pusher (words r) block
                          (is_block ∙ sized r s)
                          (omega (arith, s.grown.lower, s.grown.keep.same_top, low))
                          (omega (arith, s.grown.keep.same_top)))
                        λ (w', layout) (aligned, above, below, argc, keep, shows). record {
                          aligned = aligned;
                          above_bottom = omega (arith, above, s.grown.keep.same_bottom);
                          below_top = omega (arith, below, s.grown.lower, low);
                          argc_at_sp = argc;
                          argv_at = r.argv_at;
                          envp_at = r.envp_at;
                          platform_at = r.platform_at;
                          execfn_at = r.execfn_at;
                          random_at = r.random_at;
                          args = StringsAt-keep sw peek r.argv_at argv below keep s.args;
                          env = StringsAt-keep sw peek r.envp_at envp below keep s.env;
                          platform =
                              PlatformAt-keep sw peek r.platform_at aux.platform below keep
                                s.platform;
                          execfn = StringAt-keep sw peek aux.execfn below keep s.execfn;
                          random = IsAt-keep sw peek aux.random s.random_above keep s.random;
                          vector = av r;
                          block =
                              block_words-IsBlock sw peek w' layout.sp (length argv) r.argv_at
                                r.envp_at (av r) shows;
                          is_vector =
                              auxv_entries-IsVector aux r.random_at r.platform_at r.execfn_at;
                        })
    where
      av : Pushed S → List (ℕ × ℕ)
      av r = auxv_entries aux r.random_at r.platform_at r.execfn_at

      words : Pushed S → List ℕ
      words r = block_words (length argv) r.argv_at r.envp_at (av r)

      sized :
          {p : Pusher S} (r : Pushed S)
          → StringsPushed sw peek law p argv envp aux r
          → (length argv + length envp + 3) * 8 + length (av r) * 16 ≡ 8 * length (words r)
      sized r s = omega (
        arith,
        block_words-length (length argv) r.argv_at r.envp_at (av r),
        StringsAt-length sw peek _ _ r.argv_at argv s.args,
        StringsAt-length sw peek _ _ r.envp_at envp s.env,
      )

  -- On a writer that writes just the bytes it is given, between a bottom and a top below 2 ^ 64, and for
  -- arguments and environment strings shorter than 2 ^ 63 bytes, `build_stack` does not panic. When it
  -- returns, the stack pointer is a multiple of 16 between bottom and top. At it stand, as little-endian
  -- words, the argument count, the addresses of the arguments, 0, the addresses of the environment strings,
  -- 0, and pairs of a key and a value. Looked up in these pairs, up to the key 0, which is there, the keys
  -- 3 to 9, 11 to 17, 23, 25, 26, 31, 33 and 51 have the values that `AuxvSpec` gives for AT_PHDR,
  -- AT_PHENT, AT_PHNUM (the three where there is an address of the table), AT_PAGESZ, AT_BASE, AT_FLAGS
  -- (0), AT_ENTRY, AT_UID, AT_EUID, AT_GID, AT_EGID, AT_PLATFORM, AT_HWCAP, AT_CLKTCK, AT_SECURE, AT_RANDOM,
  -- AT_HWCAP2, AT_EXECFN, AT_SYSINFO_EHDR and AT_MINSIGSTKSZ. Every argument and environment string stands
  -- NUL-terminated at the address given for it; so do the file name and, where it is not empty, the platform
  -- name at the addresses under their keys; and the random bytes stand at the address under theirs.
  pub build_stack-IsStackOf :
      sw.bottom w ≤ sw.top w
      → sw.top w < u64_end
      → All IsShort argv
      → All IsShort envp
      → (build_stack reserve sw w argv envp aux ≢ panic)
        × ((w' : S) (layout : StackLayout)
            → build_stack reserve sw w argv envp aux ≡ ok (w', layout)
            → IsStackOf sw peek w argv envp aux w' layout)
  build_stack-IsStackOf ordered room short_args short_env =
      let safe = Safe-build_stack ordered room short_args short_env in
      (Safe-ne_panic safe, λ w' layout e. Safe-ok safe e)
