-- ===== src/Sys/Config.antt =====
-- rust/src/sys.rs: the configuration of the build, C strings, and the search for an executable.
-- `elfrs_getenv` and `elfrs_path_is_exec` are parameters, and `reserve n` says whether the allocator
-- can hold `n` bytes.
use app_elfloader.Prelude.{
  ℕ, ◌+◌, ◌≡◌, ◌⊎◌, inl, inr, refl, ap, Bool, true, false, not, Option, none, some, List, [], ◌∷◌,
  ◌++◌, length, ◌==◌, if◌then◌else◌, All, Bool-cases,
}
use app_elfloader.Prelude.Int.{ℤ, pos, negsuc}
use app_elfloader.Outcome.{Outcome, ok, err, panic, reject_if, ◌>>◌}
use app_elfloader.Err.{Error, einval, enomem}
use app_elfloader.Util.{is_bare_name, path_candidates}

-- `vfsexec_path` holds the bytes of the C string.
pub record Cfg : Type 0 where
  pub stack_len : ℕ
  pub page_size : ℕ
  pub uid : ℕ
  pub gid : ℕ
  pub have_vfs : ℕ
  pub have_mmap : ℕ
  pub have_vmem : ℕ
  pub have_environ : ℕ
  pub have_random : ℕ
  pub have_pthread : ℕ
  pub vfsexec : ℕ
  pub customappname : ℕ
  pub envpath : ℕ
  pub envpwd : ℕ
  pub execbit : ℕ
  pub debug : ℕ
  pub vfsexec_path : List ℕ
  pub vdso_addr : ℕ

abbrev contains_nul : List ℕ → Bool
contains_nul [] = false
contains_nul (c ∷ rest) = if c == 0 then true else contains_nul rest

-- `CString::new`, with the bytes that it points at.
unfoldable pub cstring_new : (ℕ → Bool) → List ℕ → Outcome Error (List ℕ)
cstring_new reserve s = do
  reject_if (contains_nul s) einval
  reject_if (not (reserve (length s + 1))) enomem
  ok (s ++ 0 ∷ [])

unfoldable pub getenv : (ℕ → Bool) → (List ℕ → Option (List ℕ)) → Cfg → List ℕ → Option (List ℕ)
unfolding cstring_new
getenv reserve c_getenv c name =
    if c.have_environ == 0
    then none
    else elim (cstring_new reserve name) [ ok s ↦ c_getenv s | err e ↦ none | panic ↦ none ]

abbrev pub is_zero : ℤ → Bool
is_zero (pos n) = n == 0
is_zero (negsuc n) = false

-- Whether the candidate can be handed to C, and is executable there.
unfoldable pub is_program : (ℕ → Bool) → (List ℕ → ℤ) → List ℕ → Bool
unfolding cstring_new
is_program reserve path_is_exec cand = elim (cstring_new reserve cand) [
  | ok s ↦ is_zero (path_is_exec s)
  | err e ↦ false
  | panic ↦ false
]

unfoldable pub first_program : (ℕ → Bool) → (List ℕ → ℤ) → List (List ℕ) → Option (List ℕ)
unfolding is_program
first_program reserve path_is_exec [] = none
first_program reserve path_is_exec (cand ∷ rest) =
    let later = first_program reserve path_is_exec rest in
    if is_program reserve path_is_exec cand then some cand else later

unfoldable pub locate_in_path : (ℕ → Bool) → (List ℕ → ℤ) → List ℕ → List ℕ → Option (List ℕ)
unfolding first_program
locate_in_path reserve path_is_exec name path_env =
    if not (is_bare_name name)
    then none
    else first_program reserve path_is_exec (path_candidates reserve name path_env)

-- The first element that is a program.
pub record IsFirst (runs : List ℕ → Bool) (found : List ℕ) (candidates : List (List ℕ))
    : Type 0 where
  pub before : List (List ℕ)
  pub after : List (List ℕ)
  pub split : candidates ≡ before ++ found ∷ after
  pub others : All (λ cand. runs cand ≡ false) before
  pub works : runs found ≡ true

abbrev pub Found : (List ℕ → Bool) → List (List ℕ) → Option (List ℕ) → Type 0
Found runs candidates none = All (λ cand. runs cand ≡ false) candidates
Found runs candidates (some found) = IsFirst runs found candidates

-- What a search for a name in a search path returns.
abbrev pub Located : (ℕ → Bool) → (List ℕ → ℤ) → List ℕ → List ℕ → Option (List ℕ) → Type 0
Located reserve path_is_exec name path_env result =
    ((is_bare_name name ≡ false) × (result ≡ none))
    ⊎ ((is_bare_name name ≡ true)
        × Found (is_program reserve path_is_exec) (path_candidates reserve name path_env) result)

Found-later :
    (runs : List ℕ → Bool) (cand : List ℕ) (rest : List (List ℕ)) (result : Option (List ℕ))
    → runs cand ≡ false
    → Found runs rest result
    → Found runs (cand ∷ rest) result
Found-later runs cand rest none refused all = (refused, all)
Found-later runs cand rest (some found) refused first = record {
  before = cand ∷ first.before;
  after = first.after;
  split = ap (λ t. cand ∷ t) first.split;
  others = (refused, first.others);
  works = first.works;
}

first_program-Found :
    (reserve : ℕ → Bool) (path_is_exec : List ℕ → ℤ) (candidates : List (List ℕ))
    → Found
        (is_program reserve path_is_exec)
        candidates
        (first_program reserve path_is_exec candidates)
unfolding first_program
first_program-Found reserve path_is_exec [] = tt
first_program-Found reserve path_is_exec (cand ∷ rest) =
    elim (Bool-cases (is_program reserve path_is_exec cand)) [
      | inl runs ↦ rw runs (first_of cand rest runs)
      | inr refused ↦
          rw refused
            (Found-later _ cand rest _ refused (first_program-Found reserve path_is_exec rest))
    ]
  where
    first_of :
        (cand : List ℕ) (rest : List (List ℕ))
        → is_program reserve path_is_exec cand ≡ true
        → IsFirst (is_program reserve path_is_exec) cand (cand ∷ rest)
    first_of cand rest runs = record {
      before = [];
      after = rest;
      split = refl;
      others = tt;
      works = runs;
    }

-- A name with a slash, with a leading dot, or of no bytes is not looked up; another is found as the
-- first candidate of the search path that is a program, and not found when no candidate is one.
pub locate_in_path-Located :
    (reserve : ℕ → Bool) (path_is_exec : List ℕ → ℤ) (name path_env : List ℕ)
    → Located reserve path_is_exec name path_env (locate_in_path reserve path_is_exec name path_env)
unfolding locate_in_path
locate_in_path-Located reserve path_is_exec name path_env = elim (Bool-cases (is_bare_name name)) [
  | inl bare ↦
      rw bare (
        inr
          (refl, first_program-Found reserve path_is_exec (path_candidates reserve name path_env)))
  | inr other ↦ rw other (inl (refl, refl))
]
