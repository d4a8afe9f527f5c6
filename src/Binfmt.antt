-- ===== src/Binfmt.antt =====
-- rust/src/binfmt.rs: what libukbinfmt is told, and which arguments the program gets. The calls that
-- read the arguments of `execve` out of C are left out.
use app_elfloader.Prelude.{
  ℕ, zero, suc, ◌<◌, ◌≡◌, ◌≢◌, ◌==◌, refl, subst, Bool, true, false, Bool-cases, inl, inr, List, [],
  ◌∷◌, if◌then◌else◌, arith,
}
use app_elfloader.Prelude.Int.{ℤ, pos, negsuc}
use app_elfloader.Outcome.{Outcome, ok, err, panic}
use app_elfloader.Err.{Error, errno_of, enoexec, as_neg}
use app_elfloader.Util.{basename}

abbrev pub handled : ℤ
handled = pos 0

abbrev pub not_handled : ℤ
not_handled = pos 1

-- `e == Error::ENOEXEC`
abbrev is_enoexec : Error → Bool
is_enoexec e = elim e.errno [ pos n ↦ n == 8 | negsuc n ↦ false ]

-- `elfrs_binfmt_load` for the outcome of `load`.
unfoldable pub binfmt_result : Outcome Error ℤ → Outcome Error ℤ
binfmt_result (ok rc) = ok rc
binfmt_result (err e) = if is_enoexec e then ok not_handled else as_neg e
binfmt_result panic = panic

-- The name that the program runs under.
unfoldable pub progname_of : List ℕ → List ℕ → List ℕ
progname_of path [] = basename path
progname_of path (c ∷ raw) = c ∷ raw

unfoldable pub argv_of : List ℕ → List (List ℕ) → List (List ℕ)
argv_of progname [] = progname ∷ []
argv_of progname (arg ∷ argv) = arg ∷ argv

-- An outcome of `load`: it handled the executable, or failed with a POSIX error number.
pub data IsLoadOutcome : Outcome Error ℤ → Type 0 where
  loaded : IsLoadOutcome (ok handled)
  refused : (n : ℕ) → 0 < n → n < 2147483648 → IsLoadOutcome (err (errno_of n))

-- What libukbinfmt is told of an outcome.
pub data Tells : Outcome Error ℤ → ℤ → Type 0 where
  mine : Tells (ok handled) (pos 0)
  next_loader : Tells (err enoexec) (pos 1)
  failure : (n : ℕ) → suc n ≢ 8 → Tells (err (errno_of (suc n))) (negsuc n)

-- libukbinfmt goes on to its next loader after ENOEXEC and in no other case: success is told as
-- HANDLED, and every other error as its negated number, which is neither of the two results.
pub binfmt_result-Tells :
    (o : Outcome Error ℤ) → IsLoadOutcome o → (rc : ℤ) × (binfmt_result o ≡ ok rc) × Tells o rc
unfolding binfmt_result as_neg
binfmt_result-Tells _ loaded = (pos 0, refl, mine)
binfmt_result-Tells _ (refused zero positive fits) = absurd (omega arith)
binfmt_result-Tells _ (refused (suc n) positive fits) = elim (Bool-cases (suc n == 8)) [
  | inl same ↦
      subst
        (λ (m : ℕ).
          (rc : ℤ) × (binfmt_result (err (errno_of m)) ≡ ok rc) × Tells (err (errno_of m)) rc)
        (eight same) (pos 1, refl, next_loader)
  | inr other ↦ (negsuc n, rw other refl, failure n (ground (arith, other)))
]
  where
    eight : (suc n == 8) ≡ true → 8 ≡ suc n
    eight same = ground arith
