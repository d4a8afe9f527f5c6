-- ===== src/Auxv/Vector.antt =====
-- The block of words at the stack pointer, as the C library of a program reads it.
use app_elfloader.Prelude.{
  ℕ, zero, suc, ◌+◌, ◌*◌, ◌≡◌, refl, ap, ◌∙◌, Bool, true, false, ◌||◌, Option, none, some, List, [],
  ◌∷◌, ◌++◌, length, ◌==◌, if◌then◌else◌, arith,
}
use app_elfloader.Elf.Header.Encode.{little_endian}
use app_elfloader.Auxv.{StackWriter, AuxvSpec, auxv_entries, flatten, block_words}
use app_elfloader.Auxv.Writer.{IsAt}
use app_elfloader.Auxv.Words.{words_bytes}

-- The value of `key` in a vector that AT_NULL ends.
abbrev pub value_of : ℕ → List (ℕ × ℕ) → Option ℕ
value_of key [] = none
value_of key ((k, v) ∷ rest) =
    let later = value_of key rest in if k == 0 then none else if k == key then some v else later

abbrev pub has_null : List (ℕ × ℕ) → Bool
has_null [] = false
has_null ((k, v) ∷ rest) = (k == 0) || has_null rest

abbrev pub looked_up : List (ℕ × ℕ) → List (ℕ × Option ℕ) → List (ℕ × Option ℕ)
looked_up av [] = []
looked_up av ((key, _) ∷ rest) = (key, value_of key av) ∷ looked_up av rest

-- A value that is there only where the table's address is.
abbrev with_table : Option ℕ → ℕ → Option ℕ
with_table none v = none
with_table (some a) v = some v

-- What the numbers of <elf.h> stand for, and what is to be found under each.
abbrev pub answers : AuxvSpec → ℕ → Option ℕ → ℕ → List (ℕ × Option ℕ)
answers aux random_at platform_at execfn_at =
    (3, aux.phdr)
    ∷ (4, with_table aux.phdr aux.phent)
    ∷ (5, with_table aux.phdr aux.phnum)
    ∷ (6, some aux.pagesz)
    ∷ (7, some aux.base)
    ∷ (8, some 0)
    ∷ (9, some aux.entry)
    ∷ (11, some aux.uid)
    ∷ (12, some aux.uid)
    ∷ (13, some aux.gid)
    ∷ (14, some aux.gid)
    ∷ (15, platform_at)
    ∷ (16, some aux.hwcap)
    ∷ (17, some aux.clktck)
    ∷ (23, some (if aux.secure then 1 else 0))
    ∷ (25, some random_at)
    ∷ (26, some aux.hwcap2)
    ∷ (31, some execfn_at)
    ∷ (33, aux.sysinfo_ehdr)
    ∷ (51, aux.minsigstksz)
    ∷ []

-- The vector answers every key, and ends.
pub record IsVector (aux : AuxvSpec) (random_at : ℕ) (platform_at : Option ℕ) (execfn_at : ℕ)
    (av : List (ℕ × ℕ)) : Type 0 where
  pub found :
      looked_up av (answers aux random_at platform_at execfn_at)
      ≡ answers aux random_at platform_at execfn_at
  pub ends : has_null av ≡ true

-- Which of the optional entries are there, and what AT_SECURE is.
by_presence :
    (aux : AuxvSpec) (r : ℕ) (platform : Option ℕ) (e : ℕ) (phdr sysinfo minsig : Option ℕ)
    (secure : Bool)
    → IsVector
        (record aux { phdr = phdr; sysinfo_ehdr = sysinfo; minsigstksz = minsig; secure = secure })
        r
        platform
        e
        (auxv_entries
          (record aux {
            phdr = phdr;
            sysinfo_ehdr = sysinfo;
            minsigstksz = minsig;
            secure = secure;
          })
          r
          platform
          e)
unfolding auxv_entries
by_presence aux r none e none none none true = record { found = refl; ends = refl }
by_presence aux r none e none none none false = record { found = refl; ends = refl }
by_presence aux r none e none none (some d) true = record { found = refl; ends = refl }
by_presence aux r none e none none (some d) false = record { found = refl; ends = refl }
by_presence aux r none e none (some c) none true = record { found = refl; ends = refl }
by_presence aux r none e none (some c) none false = record { found = refl; ends = refl }
by_presence aux r none e none (some c) (some d) true = record { found = refl; ends = refl }
by_presence aux r none e none (some c) (some d) false = record { found = refl; ends = refl }
by_presence aux r none e (some b) none none true = record { found = refl; ends = refl }
by_presence aux r none e (some b) none none false = record { found = refl; ends = refl }
by_presence aux r none e (some b) none (some d) true = record { found = refl; ends = refl }
by_presence aux r none e (some b) none (some d) false = record { found = refl; ends = refl }
by_presence aux r none e (some b) (some c) none true = record { found = refl; ends = refl }
by_presence aux r none e (some b) (some c) none false = record { found = refl; ends = refl }
by_presence aux r none e (some b) (some c) (some d) true = record { found = refl; ends = refl }
by_presence aux r none e (some b) (some c) (some d) false = record { found = refl; ends = refl }
by_presence aux r (some a) e none none none true = record { found = refl; ends = refl }
by_presence aux r (some a) e none none none false = record { found = refl; ends = refl }
by_presence aux r (some a) e none none (some d) true = record { found = refl; ends = refl }
by_presence aux r (some a) e none none (some d) false = record { found = refl; ends = refl }
by_presence aux r (some a) e none (some c) none true = record { found = refl; ends = refl }
by_presence aux r (some a) e none (some c) none false = record { found = refl; ends = refl }
by_presence aux r (some a) e none (some c) (some d) true = record { found = refl; ends = refl }
by_presence aux r (some a) e none (some c) (some d) false = record { found = refl; ends = refl }
by_presence aux r (some a) e (some b) none none true = record { found = refl; ends = refl }
by_presence aux r (some a) e (some b) none none false = record { found = refl; ends = refl }
by_presence aux r (some a) e (some b) none (some d) true = record { found = refl; ends = refl }
by_presence aux r (some a) e (some b) none (some d) false = record { found = refl; ends = refl }
by_presence aux r (some a) e (some b) (some c) none true = record { found = refl; ends = refl }
by_presence aux r (some a) e (some b) (some c) none false = record { found = refl; ends = refl }
by_presence aux r (some a) e (some b) (some c) (some d) true = record { found = refl; ends = refl }
by_presence aux r (some a) e (some b) (some c) (some d) false = record { found = refl; ends = refl }

pub auxv_entries-IsVector :
    (aux : AuxvSpec) (random_at : ℕ) (platform_at : Option ℕ) (execfn_at : ℕ)
    → IsVector aux random_at platform_at execfn_at
        (auxv_entries aux random_at platform_at execfn_at)
auxv_entries-IsVector aux random_at platform_at execfn_at =
    by_presence aux random_at platform_at execfn_at aux.phdr aux.sysinfo_ehdr aux.minsigstksz
      aux.secure

module _ {S : Type 0} (sw : StackWriter S) (peek : S → ℕ → ℕ) where
  abbrev pub WordAt : S → ℕ → ℕ → Type 0
  WordAt w a v = IsAt sw peek w a (little_endian 8 v)

  abbrev pub WordsAt : S → ℕ → List ℕ → Type 0
  WordsAt w a [] = Unit
  WordsAt w a (v ∷ vs) = WordAt w a v × WordsAt w (a + 8) vs

  abbrev pub PairsAt : S → ℕ → List (ℕ × ℕ) → Type 0
  PairsAt w a [] = Unit
  PairsAt w a ((k, v) ∷ rest) = WordAt w a k × WordAt w (a + 8) v × PairsAt w (a + 8 + 8) rest

  -- The count, the addresses of the arguments, 0, the addresses of the environment strings, 0, and the
  -- pairs of the vector, each its key first.
  pub record IsBlock (w : S) (sp argc : ℕ) (argv_at envp_at : List ℕ) (av : List (ℕ × ℕ))
      : Type 0 where
    pub count : WordAt w sp argc
    pub args : WordsAt w (sp + 8) argv_at
    pub args_end : WordAt w (sp + 8 + 8 * length argv_at) 0
    pub env : WordsAt w (sp + 8 + 8 * length argv_at + 8) envp_at
    pub env_end : WordAt w (sp + 8 + 8 * length argv_at + 8 + 8 * length envp_at) 0
    pub pairs : PairsAt w (sp + 8 + 8 * length argv_at + 8 + 8 * length envp_at + 8) av

  IsAt-left : (w : S) (a : ℕ) (bs cs : List ℕ) → IsAt sw peek w a (bs ++ cs) → IsAt sw peek w a bs
  IsAt-left w a [] cs h k v e = cc
  IsAt-left w a (b ∷ bs) cs h zero v e = h zero v e
  IsAt-left w a (b ∷ bs) cs h (suc k) v e =
      ap (peek w) (omega arith)
      ∙ IsAt-left w (a + 1) bs cs (λ i u f. ap (peek w) (omega arith) ∙ h (suc i) u f) k v e

  IsAt-right :
      (w : S) (a : ℕ) (bs cs : List ℕ)
      → IsAt sw peek w a (bs ++ cs)
      → IsAt sw peek w (a + length bs) cs
  IsAt-right w a [] cs h k v e = ap (peek w) (omega arith) ∙ h k v e
  IsAt-right w a (b ∷ bs) cs h k v e =
      ap (peek w) (omega arith)
      ∙ IsAt-right w (a + 1) bs cs (λ i u f. ap (peek w) (omega arith) ∙ h (suc i) u f) k v e

  word_first :
      (w : S) (a v : ℕ) (vs : List ℕ)
      → IsAt sw peek w a (words_bytes (v ∷ vs))
      → WordAt w a v × IsAt sw peek w (a + 8) (words_bytes vs)
  word_first w a v vs h = (
    IsAt-left w a (little_endian 8 v) (words_bytes vs) h,
    IsAt-right w a (little_endian 8 v) (words_bytes vs) h,
  )

  words_first :
      (w : S) (a : ℕ) (xs ys : List ℕ)
      → IsAt sw peek w a (words_bytes (xs ++ ys))
      → WordsAt w a xs × IsAt sw peek w (a + 8 * length xs) (words_bytes ys)
  words_first w a [] ys h = (tt, λ k v e. ap (peek w) (omega arith) ∙ h k v e)
  words_first w a (x ∷ xs) ys h =
      let (first, rest) = word_first w a x (xs ++ ys) h in
      let (later, behind) = words_first w (a + 8) xs ys rest in
      ((first, later), λ k v e. ap (peek w) (omega arith) ∙ behind k v e)

  pairs_of :
      (w : S) (a : ℕ) (av : List (ℕ × ℕ))
      → IsAt sw peek w a (words_bytes (flatten av))
      → PairsAt w a av
  pairs_of w a [] h = tt
  pairs_of w a ((k, v) ∷ rest) h =
      let (key, behind) = word_first w a k (v ∷ flatten rest) h in
      let (value, later) = word_first w (a + 8) v (flatten rest) behind in
      (key, value, pairs_of w (a + 8 + 8) rest later)

  pub block_words-IsBlock :
      (w : S) (sp argc : ℕ) (argv_at envp_at : List ℕ) (av : List (ℕ × ℕ))
      → IsAt sw peek w sp (words_bytes (block_words argc argv_at envp_at av))
      → IsBlock w sp argc argv_at envp_at av
  block_words-IsBlock w sp argc argv_at envp_at av h =
      let (count, h1) = word_first w sp argc _ h in
      let (args, h2) = words_first w (sp + 8) argv_at (0 ∷ (envp_at ++ (0 ∷ flatten av))) h1 in
      let (args_end, h3) = word_first w (sp + 8 + 8 * length argv_at) 0 _ h2 in
      let (env, h4) = words_first w (sp + 8 + 8 * length argv_at + 8) envp_at (0 ∷ flatten av) h3 in
      let (env_end, h5) = word_first w _ 0 (flatten av) h4 in
      record {
        count = count;
        args = args;
        args_end = args_end;
        env = env;
        env_end = env_end;
        pairs = pairs_of w _ av h5;
      }
