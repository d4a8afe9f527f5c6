-- ===== src/Util/Base.antt =====
-- The parts that `basename` cuts a path into.
use app_elfloader.Prelude.{
  ℕ, zero, suc, ◌≡◌, ◌≢◌, ◌⊎◌, refl, ap, ◌∙◌, Bool, true, false, not, Option, none, some, List, [],
  ◌∷◌, ◌++◌, take, drop, if◌then◌else◌, All, Bool-cases, inl, inr, subst,
}
use app_elfloader.Util.{rposition, is_slash, behind, basename}

take-drop : (n : ℕ) (xs : List ℕ) → xs ≡ take n xs ++ drop n xs
take-drop zero xs = refl
take-drop (suc n) [] = refl
take-drop (suc n) (x ∷ xs) = ap (λ t. x ∷ t) (take-drop n xs)

-- Behind the last hit there is none.
rposition-behind :
    (f : ℕ → Bool) (xs : List ℕ) → All (λ x. f x ≡ false) (drop (behind (rposition f xs)) xs)
unfolding rposition
rposition-behind f [] = tt
rposition-behind f (x ∷ xs) = cases (rposition f xs) refl (rposition-behind f xs)
  where
    cases :
        (o : Option ℕ)
        → rposition f xs ≡ o
        → All (λ y. f y ≡ false) (drop (behind o) xs)
        → All
            (λ y. f y ≡ false)
            (drop
              (behind (elim o [ some i ↦ some (suc i) | none ↦ if f x then some 0 else none ]))
              (x ∷ xs))
    cases (some i) e later = later
    cases none e later = elim (Bool-cases (f x)) [ inl t ↦ rw t later | inr n ↦ rw n (n, later) ]

-- The list is empty or ends with a hit.
abbrev pub EndsWith : (ℕ → Bool) → List ℕ → Type 0
EndsWith f xs = (xs ≡ []) ⊎ ((d : List ℕ) × (c : ℕ) × (xs ≡ d ++ c ∷ []) × (f c ≡ true))

take_hit : (f : ℕ → Bool) (xs : List ℕ) (i : ℕ) → rposition f xs ≡ some i → take (suc i) xs ≢ []
unfolding rposition
take_hit f [] i e n = cc
take_hit f (x ∷ xs) i e n = cc

-- Up to the last hit, it ends with it.
rposition-ends : (f : ℕ → Bool) (xs : List ℕ) → EndsWith f (take (behind (rposition f xs)) xs)
unfolding rposition
rposition-ends f [] = inl refl
rposition-ends f (x ∷ xs) = cases (rposition f xs) refl (rposition-ends f xs)
  where
    cases :
        (o : Option ℕ)
        → rposition f xs ≡ o
        → EndsWith f (take (behind o) xs)
        → EndsWith f (
            take
              (behind (elim o [ some i ↦ some (suc i) | none ↦ if f x then some 0 else none ]))
              (x ∷ xs))
    cases (some i) e later = elim later [
      | inl empty ↦ absurd (take_hit f xs i e empty)
      | inr (d, c, ends, hit) ↦ inr (x ∷ d, c, ap (λ t. x ∷ t) ends, hit)
    ]
    cases none e later = elim (Bool-cases (f x)) [
      | inl t ↦ rw t (inr ([], x, refl, t))
      | inr n ↦ rw n (inl refl)
    ]

-- `base` is the last component of `path`: what stands before it ends with a slash or is empty, it has
-- no slash, it does not stand before a slash only, and only slashes follow it.
pub record IsBaseOf (path base : List ℕ) : Type 0 where
  pub directory : List ℕ
  pub slashes : List ℕ
  pub splits : path ≡ (directory ++ base) ++ slashes
  pub directory_ends : EndsWith is_slash directory
  pub base_ends : EndsWith (λ c. not (is_slash c)) (directory ++ base)
  pub no_slash : All (λ c. is_slash c ≡ false) base
  pub only_slashes : All (λ c. not (is_slash c) ≡ false) slashes

-- `basename` returns the last component of a path: the path is a directory part, which is empty or ends
-- with a slash, then the result, which has no slash, then slashes alone, and what stands before these
-- is empty or does not end with a slash.
pub basename-IsBaseOf : (path : List ℕ) → IsBaseOf path (basename path)
unfolding basename
basename-IsBaseOf path = record {
  directory = take (behind (rposition is_slash stripped)) stripped;
  slashes = drop end path;
  splits =
      take-drop end path
      ∙ ap (λ t. t ++ drop end path) (take-drop (behind (rposition is_slash stripped)) stripped);
  directory_ends = rposition-ends is_slash stripped;
  base_ends =
      subst (EndsWith (λ c. not (is_slash c)))
        (take-drop (behind (rposition is_slash stripped)) stripped)
        (rposition-ends (λ c. not (is_slash c)) path);
  no_slash = rposition-behind is_slash stripped;
  only_slashes = rposition-behind (λ c. not (is_slash c)) path;
}
  where
    end : ℕ
    end = behind (rposition (λ c. not (is_slash c)) path)

    stripped : List ℕ
    stripped = take end path
