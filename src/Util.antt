-- ===== src/Util.antt =====
-- rust/src/util.rs: paths as byte strings.
pub mod Base
pub mod Bare
use app_elfloader.Prelude.{
  ℕ, zero, suc, ◌+◌, Bool, true, false, not, ◌&&◌, Option, none, some, List, [], ◌∷◌, ◌++◌, length,
  take, drop, leb, ltb, ◌==◌, if◌then◌else◌,
}

-- `iter().rposition(f)`
unfoldable pub rposition : (ℕ → Bool) → List ℕ → Option ℕ
rposition f [] = none
rposition f (x ∷ xs) = elim (rposition f xs) [
  | some i ↦ some (suc i)
  | none ↦ if f x then some 0 else none
]

abbrev pub is_slash : ℕ → Bool
is_slash c = c == b'/'

-- `.map(|i| i + 1).unwrap_or(0)`
abbrev pub behind : Option ℕ → ℕ
behind none = 0
behind (some i) = suc i

-- The last component of a path without trailing slashes.
abbrev pub last_component : List ℕ → List ℕ
last_component stripped = drop (behind (rposition is_slash stripped)) stripped

unfoldable pub basename : List ℕ → List ℕ
basename path = last_component (take (behind (rposition (λ c. not (is_slash c)) path)) path)

unfoldable pub contains_slash : List ℕ → Bool
contains_slash [] = false
contains_slash (c ∷ rest) = if is_slash c then true else contains_slash rest

unfoldable pub is_bare_name : List ℕ → Bool
unfolding contains_slash
is_bare_name [] = false
is_bare_name (c ∷ rest) = not (is_slash c) && not (c == b'.') && not (contains_slash (c ∷ rest))

-- `split(|&c| c == b':')`: one element more than there are colons.
abbrev put_first : ℕ → List (List ℕ) → List (List ℕ)
put_first c [] = (c ∷ []) ∷ []
put_first c (s ∷ rest) = (c ∷ s) ∷ rest

unfoldable pub split_colon : List ℕ → List (List ℕ)
split_colon [] = [] ∷ []
split_colon (c ∷ rest) =
    let later = split_colon rest in if c == b':' then [] ∷ later else put_first c later

-- `cand.last() != Some(&b'/')` decides whether a slash is pushed.
unfoldable pub with_slash : List ℕ → List ℕ
with_slash [] = b'/' ∷ []
with_slash (c ∷ []) = if is_slash c then c ∷ [] else c ∷ b'/' ∷ []
with_slash (c ∷ d ∷ rest) = c ∷ with_slash (d ∷ rest)

-- `reserve n` says whether the allocator can hold `n` elements more.
unfoldable pub candidate : (ℕ → Bool) → List ℕ → List ℕ → Option (List ℕ)
unfolding with_slash
candidate reserve name dir =
    if reserve (length dir + 1 + length name)
    then some (with_slash (elim dir [ [] ↦ b'.' ∷ [] | c ∷ rest ↦ c ∷ rest ]) ++ name)
    else none

abbrev pub filter_map : (List ℕ → Option (List ℕ)) → List (List ℕ) → List (List ℕ)
filter_map f [] = []
filter_map f (x ∷ xs) = elim (f x) [ none ↦ filter_map f xs | some y ↦ y ∷ filter_map f xs ]

unfoldable pub path_candidates : (ℕ → Bool) → List ℕ → List ℕ → List (List ℕ)
unfolding candidate split_colon
path_candidates reserve name path_env = filter_map (candidate reserve name) (split_colon path_env)

-- `Show`: what is not printable becomes a question mark.
unfoldable pub show : List ℕ → List ℕ
show [] = []
show (b ∷ rest) = (if leb 32 b && ltb b 127 then b else b'?') ∷ show rest
