-- ===== src/Tests/Sys.antt =====
-- The theorems on files and on the search path at small files and paths.
use app_elfloader.Prelude.{
  ℕ, zero, suc, ◌≡◌, ◌≤◌, refl, ap, some, List, [], ◌∷◌, take, drop, arith, if◌then◌else◌, ◌==◌,
}
use app_elfloader.Prelude.Int.{ℤ, pos, negsuc}
use app_elfloader.Outcome.{◌>>=◌}
use app_elfloader.Util.{is_bare_name, path_candidates}
use app_elfloader.Sys.File.{
  Reply, got, failed, file_source, mem_source, IsPread, file_source-eq-mem_source,
}
use app_elfloader.Sys.Config.{Located, locate_in_path, locate_in_path-Located}
use app_elfloader.Tests.{always}

abbrev contents : List ℕ
contents = 10 ∷ 20 ∷ 30 ∷ []

-- One byte at a time.
abbrev pread_one : ℤ → ℕ → ℤ → Reply
pread_one fd count (pos off) = got (take 1 (drop off contents))
pread_one fd count (negsuc n) = failed 21

at_end : (off : ℕ) → 3 ≤ off → take 1 (drop off contents) ≡ []
at_end zero h = absurd (omega arith)
at_end (suc zero) h = absurd (omega arith)
at_end (suc (suc zero)) h = absurd (omega arith)
at_end (suc (suc (suc zero))) h = refl
at_end (suc (suc (suc (suc n)))) h = refl

pread_one-IsPread : IsPread contents (pread_one (pos 3))
pread_one-IsPread = record {
  serves = λ count off h k. record {
    taken = 1;
    progress = omega arith;
    asked = omega arith;
    inside = omega arith;
    answer = refl;
  };
  ends = λ count off h. ap got (at_end off h);
}

file_source-eq-mem_source_example :
    (file_source pread_one (record { fd = pos 3; size = some 3 })).read_exact_at 1 2
    ≡ (mem_source (record { region = contents })).read_exact_at 1 2
file_source-eq-mem_source_example =
    file_source-eq-mem_source contents pread_one (record { fd = pos 3; size = some 3 })
      pread_one-IsPread 1 2 (omega arith) (omega arith)

-- `sh` is found in `/b` alone.
abbrev in_b : List ℕ → ℤ
in_b (s ∷ d ∷ rest) = if d == b'b' then pos 0 else negsuc 1
in_b s = negsuc 1

abbrev sh : List ℕ
sh = b's' ∷ b'h' ∷ []

abbrev two_directories : List ℕ
two_directories = b'/' ∷ b'a' ∷ b':' ∷ b'/' ∷ b'b' ∷ []

found_in_b :
    locate_in_path always in_b sh two_directories ≡ some (b'/' ∷ b'b' ∷ b'/' ∷ b's' ∷ b'h' ∷ [])
unfolding locate_in_path is_bare_name path_candidates ◌>>=◌
found_in_b = refl

locate_in_path-Located_example :
    Located always in_b sh two_directories (locate_in_path always in_b sh two_directories)
locate_in_path-Located_example = locate_in_path-Located always in_b sh two_directories
