-- ===== src/Auxv/Build.antt =====
-- The two halves of `build_stack`: the strings, and the block that points to them.
use app_elfloader.Prelude.{
  ℕ, ◌*◌, ◌%◌, ◌≤◌, ◌<◌, ◌≡◌, refl, ap, ◌∙◌, Bool, List, [], ◌∷◌, length, Option, none, some, arith,
  ltb, not-ltb→le,
}
use app_elfloader.Outcome.{Safe, returns, Safe-bind, Safe-bind_is, Safe-ok_or, Safe-reject_if}
use app_elfloader.Word.{u64_end, checked_sub, checked_sub-eq-some}
use app_elfloader.Word.Bits.{IsPowerOfTwo, IsPowerOfTwo-pos}
use app_elfloader.Word.Align.{down-le, down-mod}
use app_elfloader.Elf.Align.{Safe-align_down}
use app_elfloader.Auxv.{
  StackWriter, AuxvSpec, StackLayout, Pusher, Pushed, push_platform, push_strings, align, put_block,
  sp_align,
}
use app_elfloader.Auxv.Writer.{
  IsAt, IsWriter, KeepsFrom, IsAt-keep, Grown, Grown-trans, StringAt, StringsAt, StringAt-keep,
  StringsAt-keep, Safe-push_bytes, Safe-push_cstr, Safe-push_all,
}
use app_elfloader.Auxv.Vector.{IsVector, IsBlock}
use app_elfloader.Auxv.Words.{words_bytes, Safe-write_words}

pub sp_align-IsPowerOfTwo : IsPowerOfTwo sp_align
sp_align-IsPowerOfTwo = record { exponent = 4; fits = omega arith; is_power = refl }

module _ {S : Type 0} (sw : StackWriter S) (peek : S → ℕ → ℕ) where
  -- The platform string, which is left out where it is empty.
  abbrev pub PlatformAt : ℕ → S → Option ℕ → List ℕ → Type 0
  PlatformAt low w none [] = Unit
  PlatformAt low w none (c ∷ s) = ⊥
  PlatformAt low w (some a) s = StringAt sw peek low w a s

  pub PlatformAt-keep :
      {low low' : ℕ} {w w' : S} (o : Option ℕ) (s : List ℕ)
      → low' ≤ low
      → KeepsFrom sw peek low w w'
      → PlatformAt low w o s
      → PlatformAt low' w' o s
  PlatformAt-keep none [] h keep at = tt
  PlatformAt-keep none (c ∷ s) h keep at = at
  PlatformAt-keep (some a) s h keep at = StringAt-keep sw peek s h keep at

  -- All that the program reads: the strings, the random bytes, and the block of words at the stack
  -- pointer that points to them, with the auxiliary vector.
  pub record IsStackOf (w : S) (argv envp : List (List ℕ)) (aux : AuxvSpec) (w' : S)
      (layout : StackLayout) : Type 0 where
    pub aligned : layout.sp % 16 ≡ 0
    pub above_bottom : sw.bottom w ≤ layout.sp
    pub below_top : layout.sp ≤ sw.top w
    pub argc_at_sp : layout.argc_at ≡ layout.sp
    pub argv_at : List ℕ
    pub envp_at : List ℕ
    pub platform_at : Option ℕ
    pub execfn_at : ℕ
    pub random_at : ℕ
    pub args : StringsAt sw peek layout.sp w' argv_at argv
    pub env : StringsAt sw peek layout.sp w' envp_at envp
    pub platform : PlatformAt layout.sp w' platform_at aux.platform
    pub execfn : StringAt sw peek layout.sp w' execfn_at aux.execfn
    pub random : IsAt sw peek w' random_at aux.random
    pub vector : List (ℕ × ℕ)
    pub block : IsBlock sw peek w' layout.sp (length argv) argv_at envp_at vector
    pub is_vector : IsVector aux random_at platform_at execfn_at vector

module _ {S : Type 0} (sw : StackWriter S) (peek : S → ℕ → ℕ) (law : IsWriter sw peek) where
  pub record StringsPushed (p : Pusher S) (argv envp : List (List ℕ)) (aux : AuxvSpec)
      (r : Pushed S) : Type 0 where
    pub grown : Grown sw peek p r.pusher
    pub args : StringsAt sw peek r.pusher.sp r.pusher.w r.argv_at argv
    pub env : StringsAt sw peek r.pusher.sp r.pusher.w r.envp_at envp
    pub platform : PlatformAt sw peek r.pusher.sp r.pusher.w r.platform_at aux.platform
    pub execfn : StringAt sw peek r.pusher.sp r.pusher.w r.execfn_at aux.execfn
    pub random_above : r.pusher.sp ≤ r.random_at
    pub random : IsAt sw peek r.pusher.w r.random_at aux.random

  Safe-push_platform :
      (p : Pusher S) (s : List ℕ)
      → p.sp ≤ sw.top p.w
      → Safe
          (λ r. Grown sw peek p r.0 × PlatformAt sw peek r.0.sp r.0.w r.1 s)
          (push_platform sw p s)
  unfolding push_platform
  Safe-push_platform p [] fits = returns (
    record {
      lower = omega arith;
      keep = record { same_top = refl; same_bottom = refl; keeps = λ x h. refl };
    },
    tt,
  )
  Safe-push_platform p (c ∷ s) fits =
      Safe-bind _ _ (Safe-push_cstr sw peek law p (c ∷ s) fits) λ r h. returns h

  -- Rounding the stack pointer down leaves memory alone.
  Safe-align :
      (p : Pusher S) → p.sp < u64_end → Safe (λ p'. Grown sw peek p p') (align sw p sp_align)
  unfolding align
  Safe-align p h = Safe-bind_is _ _ (Safe-align_down sp_align-IsPowerOfTwo p.sp h) (
      returns (record {
        lower = down-le sp_align (IsPowerOfTwo-pos sp_align-IsPowerOfTwo) p.sp;
        keep = record { same_top = refl; same_bottom = refl; keeps = λ x k. refl };
      }))

  fits_still : {p p' : Pusher S} → p.sp ≤ sw.top p.w → Grown sw peek p p' → p'.sp ≤ sw.top p'.w
  fits_still fits g = omega (arith, g.lower, g.keep.same_top)

  pub Safe-push_strings :
      (reserve : ℕ → Bool) (p : Pusher S) (argv envp : List (List ℕ)) (aux : AuxvSpec)
      → p.sp ≤ sw.top p.w
      → sw.top p.w < u64_end
      → Safe (StringsPushed p argv envp aux) (push_strings reserve sw p argv envp aux)
  unfolding push_strings
  Safe-push_strings reserve p argv envp aux fits room =
      Safe-bind _ _ (Safe-push_platform p aux.platform fits) λ (p1, platform_at) (g1, platform).
        Safe-bind _ _ (Safe-push_cstr sw peek law p1 aux.execfn (fits_still fits g1))
          λ (p2, execfn_at) (g2, execfn).
            Safe-bind _ _ (Safe-align p2 (omega (arith, g1.lower, g2.lower))) λ p3 g3.
              Safe-bind _ _
                (Safe-push_bytes sw peek law p3 aux.random
                  (fits_still (fits_still (fits_still fits g1) g2) g3))
                λ (p4, random_at) (g4, at4, _, random). Safe-bind _ _ (Safe-reject_if _ _) λ _ _.
                  Safe-bind _ _
                    (Safe-push_all sw peek law p4 envp
                      (fits_still (fits_still (fits_still (fits_still fits g1) g2) g3) g4))
                    λ (p5, envp_at) (g5, env). Safe-bind _ _ (Safe-reject_if _ _) λ _ _.
                      Safe-bind _ _
                        (Safe-push_all sw peek law p5 argv (
                          fits_still
                            (fits_still (fits_still (fits_still (fits_still fits g1) g2) g3) g4)
                            g5))
                        λ (p6, argv_at) (g6, args).
                          let after5 = g6 in
                          let after4 = Grown-trans sw peek g5 g6 in
                          let after2 = Grown-trans sw peek g3 (Grown-trans sw peek g4 after4) in
                          let after1 = Grown-trans sw peek g2 after2 in
                          returns (record {
                            grown = Grown-trans sw peek g1 after1;
                            args = args;
                            env = StringsAt-keep sw peek envp_at envp after5.lower after5.keep env;
                            platform =
                                PlatformAt-keep sw peek platform_at aux.platform after1.lower
                                  after1.keep platform;
                            execfn =
                                StringAt-keep sw peek aux.execfn after2.lower after2.keep execfn;
                            random_above = omega (arith, after4.lower, at4);
                            random =
                                IsAt-keep sw peek aux.random (omega (arith, at4)) after4.keep
                                  random;
                          })

  pub Safe-put_block :
      (reserve : ℕ → Bool) (p : Pusher S) (words : List ℕ) (block : ℕ)
      → block ≡ 8 * length words
      → p.sp ≤ sw.top p.w
      → sw.top p.w < u64_end
      → Safe
          (λ r.
            (r.1.sp % 16 ≡ 0)
            × (sw.bottom p.w ≤ r.1.sp)
            × (r.1.sp ≤ p.sp)
            × (r.1.argc_at ≡ r.1.sp)
            × KeepsFrom sw peek p.sp p.w r.0
            × IsAt sw peek r.0 r.1.sp (words_bytes words))
          (put_block reserve sw p words block)
  unfolding put_block
  Safe-put_block reserve p words block is_block fits room =
      Safe-bind _ _ (Safe-ok_or (checked_sub p.sp block) _ (λ c e. checked_sub-eq-some _ _ e))
        λ low is_low.
          Safe-bind _ _ (Safe-align_down sp_align-IsPowerOfTwo low (omega (arith, is_low.0)))
            λ sp is_sp. Safe-bind _ _ (Safe-reject_if (ltb sp (sw.bottom p.w)) _) λ _ above.
              let below : sp ≤ low = omega (arith, is_sp) in
              Safe-bind _ _
                (Safe-write_words sw peek law p.w sp words (not-ltb→le _ _ above)
                  (omega (arith, below, is_low.0, is_low.1)) room)
                λ r (keep, shows, _). returns (
                  ap (λ (t : ℕ). t % 16) is_sp
                      ∙ down-mod sp_align (IsPowerOfTwo-pos sp_align-IsPowerOfTwo) low,
                  not-ltb→le _ _ above,
                  omega (arith, below, is_low.0),
                  refl,
                  record {
                    same_top = keep.same_top;
                    same_bottom = keep.same_bottom;
                    keeps = λ x h. keep.keeps x (omega (arith, below, is_low.0, is_low.1));
                  },
                  shows,
                )
