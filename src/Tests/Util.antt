-- ===== src/Tests/Util.antt =====
-- Paths.
use app_elfloader.Prelude.{ℕ, ◌≡◌, ◌↔◌, refl, true, List, [], ◌∷◌}
use app_elfloader.Util.{
  basename, rposition, is_bare_name, path_candidates, candidate, split_colon, with_slash,
}
use app_elfloader.Util.Base.{IsBaseOf, basename-IsBaseOf}
use app_elfloader.Util.Bare.{IsBare, is_bare_name-IsBare}
use app_elfloader.Tests.{always}

-- /b/c//
abbrev sample : List ℕ
sample = b'/' ∷ b'b' ∷ b'/' ∷ b'c' ∷ b'/' ∷ b'/' ∷ []

sample_base : basename sample ≡ b'c' ∷ []
unfolding basename rposition
sample_base = refl

basename-IsBaseOf_example : IsBaseOf sample (basename sample)
basename-IsBaseOf_example = basename-IsBaseOf sample

is_bare_name-IsBare_example : (is_bare_name (b'l' ∷ b's' ∷ []) ≡ true) ↔ IsBare (b'l' ∷ b's' ∷ [])
is_bare_name-IsBare_example = is_bare_name-IsBare (b'l' ∷ b's' ∷ [])

-- `a::b/` for `x`: a/x, ./x, b/x
candidates_in_order :
    path_candidates always (b'x' ∷ []) (b'a' ∷ b':' ∷ b':' ∷ b'b' ∷ b'/' ∷ [])
    ≡ (b'a' ∷ b'/' ∷ b'x' ∷ []) ∷ (b'.' ∷ b'/' ∷ b'x' ∷ []) ∷ (b'b' ∷ b'/' ∷ b'x' ∷ []) ∷ []
unfolding path_candidates candidate split_colon with_slash
candidates_in_order = refl
