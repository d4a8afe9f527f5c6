-- ===== src/Util/Bare.antt =====
-- Which names are looked up in the search path.
use app_elfloader.Prelude.{
  ℕ, ◌≡◌, ◌↔◌, refl, Bool, true, false, not, ◌&&◌, List, [], ◌∷◌, ◌==◌, All, Bool-cases, inl, inr,
}
use app_elfloader.Util.{is_slash, contains_slash, is_bare_name}

contains_slash-All : (s : List ℕ) → contains_slash s ≡ false → All (λ c. is_slash c ≡ false) s
unfolding contains_slash
contains_slash-All [] h = tt
contains_slash-All (c ∷ rest) h = elim (Bool-cases (is_slash c)) [
  | inl t ↦ absurd (cc (rw t at h))
  | inr n ↦ (n, contains_slash-All rest (rw n at h))
]

none_of : (a b c : Bool) → (not a && not b && not c) ≡ true → (b ≡ false) × (c ≡ false)
none_of false false false h = (refl, refl)
none_of true b c h = cc
none_of false true c h = cc
none_of false false true h = cc

none_of_back : {a b c : Bool} → a ≡ false → b ≡ false → c ≡ false → (not a && not b && not c) ≡ true
none_of_back p q r = rw (p, q, r) refl

-- The name is not empty, does not start with a dot and has no slash.
abbrev pub IsBare : List ℕ → Type 0
IsBare [] = ⊥
IsBare (c ∷ rest) = ((c == b'.') ≡ false) × All (λ b. is_slash b ≡ false) (c ∷ rest)

no_slash-contains_slash : (s : List ℕ) → All (λ c. is_slash c ≡ false) s → contains_slash s ≡ false
unfolding contains_slash
no_slash-contains_slash [] h = refl
no_slash-contains_slash (c ∷ rest) h = rw h.0 (no_slash-contains_slash rest h.1)

-- `is_bare_name` holds exactly of the names that are not empty, do not start with a dot and have no
-- slash.
pub is_bare_name-IsBare : (name : List ℕ) → (is_bare_name name ≡ true) ↔ IsBare name
unfolding is_bare_name
is_bare_name-IsBare [] = (λ h. cc, λ h. absurd h)
is_bare_name-IsBare (c ∷ rest) = (
  λ h.
      let (no_dot, no_slash) = none_of (is_slash c) (c == b'.') (contains_slash (c ∷ rest)) h in
      (no_dot, contains_slash-All (c ∷ rest) no_slash),
  λ h. none_of_back h.1.0 h.0 (no_slash-contains_slash (c ∷ rest) h.1),
)
