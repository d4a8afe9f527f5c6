-- ===== src/Auxv/Writer.antt =====
-- What a stack writer does to memory, and what the pushes leave there.
use app_elfloader.Prelude.{
  ℕ, zero, suc, ◌+◌, ◌≤◌, ◌<◌, ◌≡◌, ◌⊎◌, inr, refl, ap, ◌∙◌, List, [], ◌∷◌, ◌++◌, length, get_elem?,
  some, some-injective, arith, ltb, not-ltb→le,
}
use app_elfloader.Outcome.{Safe, returns, Safe-bind, Safe-map, Safe-ok_or, Safe-reject_if}
use app_elfloader.Word.{checked_sub, checked_sub-eq-some}
use app_elfloader.Auxv.{StackWriter, Pusher, push_bytes, push_cstr, push_all}

module _ {S : Type 0} (sw : StackWriter S) (peek : S → ℕ → ℕ) where
  -- The bytes `bs` stand at `a`.
  abbrev pub IsAt : S → ℕ → List ℕ → Type 0
  IsAt w a bs = (k v : ℕ) → get_elem? bs k ≡ some v → peek w (a + k) ≡ v

  -- `w'` is `w` with `bs` at `a`.
  pub record Wrote (w : S) (a : ℕ) (bs : List ℕ) (w' : S) : Type 0 where
    pub same_top : sw.top w' ≡ sw.top w
    pub same_bottom : sw.bottom w' ≡ sw.bottom w
    pub shows : IsAt w' a bs
    pub keeps : (x : ℕ) → (x < a) ⊎ (a + length bs ≤ x) → peek w' x ≡ peek w x

  -- A write between bottom and top does not panic, and one that succeeds has written just its bytes.
  pub record IsWriter : Type 0 where
    pub writes :
        (w : S) (a : ℕ) (bs : List ℕ)
        → sw.bottom w ≤ a
        → a + length bs ≤ sw.top w
        → Safe (Wrote w a bs) (sw.write w a bs)

  -- `w'` is `w` with changes below `low` only.
  pub record KeepsFrom (low : ℕ) (w w' : S) : Type 0 where
    pub same_top : sw.top w' ≡ sw.top w
    pub same_bottom : sw.bottom w' ≡ sw.bottom w
    pub keeps : (x : ℕ) → low ≤ x → peek w' x ≡ peek w x

  pub KeepsFrom-trans :
      {low low' : ℕ} {w w' w'' : S}
      → low' ≤ low
      → KeepsFrom low w w'
      → KeepsFrom low' w' w''
      → KeepsFrom low w w''
  KeepsFrom-trans h k k' = record {
    same_top = k'.same_top ∙ k.same_top;
    same_bottom = k'.same_bottom ∙ k.same_bottom;
    keeps = λ x above. k'.keeps x (omega arith) ∙ k.keeps x above;
  }

  pub IsAt-keep :
      {low a : ℕ} {w w' : S} (bs : List ℕ)
      → low ≤ a
      → KeepsFrom low w w'
      → IsAt w a bs
      → IsAt w' a bs
  IsAt-keep {a = a} bs h keep shows k v e = keep.keeps (a + k) (omega arith) ∙ shows k v e

  -- The pusher has moved down to `p'`.
  pub record Grown (p p' : Pusher S) : Type 0 where
    pub lower : p'.sp ≤ p.sp
    pub keep : KeepsFrom p.sp p.w p'.w

  pub Grown-trans : {p p' p'' : Pusher S} → Grown p p' → Grown p' p'' → Grown p p''
  Grown-trans g g' = record {
    lower = omega (arith, g.lower, g'.lower);
    keep = KeepsFrom-trans g.lower g.keep g'.keep;
  }

  -- The NUL-terminated string `s` stands at `a`, at or above `low`.
  abbrev pub StringAt : ℕ → S → ℕ → List ℕ → Type 0
  StringAt low w a s = (low ≤ a) × IsAt w a (s ++ 0 ∷ [])

  abbrev pub StringsAt : ℕ → S → List ℕ → List (List ℕ) → Type 0
  StringsAt low w [] [] = Unit
  StringsAt low w [] (s ∷ ss) = ⊥
  StringsAt low w (a ∷ places) [] = ⊥
  StringsAt low w (a ∷ places) (s ∷ ss) = StringAt low w a s × StringsAt low w places ss

  pub StringAt-keep :
      {low low' a : ℕ} {w w' : S} (s : List ℕ)
      → low' ≤ low
      → KeepsFrom low w w'
      → StringAt low w a s
      → StringAt low' w' a s
  StringAt-keep s h keep (above, shows) = (omega arith, IsAt-keep (s ++ 0 ∷ []) above keep shows)

  pub StringsAt-keep :
      {low low' : ℕ} {w w' : S} (places : List ℕ) (ss : List (List ℕ))
      → low' ≤ low
      → KeepsFrom low w w'
      → StringsAt low w places ss
      → StringsAt low' w' places ss
  StringsAt-keep [] [] h keep all = tt
  StringsAt-keep [] (s ∷ ss) h keep all = all
  StringsAt-keep (a ∷ places) [] h keep all = all
  StringsAt-keep (a ∷ places) (s ∷ ss) h keep all =
      (StringAt-keep s h keep all.0, StringsAt-keep places ss h keep all.1)

  pub StringsAt-length :
      (low : ℕ) (w : S) (places : List ℕ) (ss : List (List ℕ))
      → StringsAt low w places ss
      → length places ≡ length ss
  StringsAt-length low w [] [] all = refl
  StringsAt-length low w [] (s ∷ ss) all = absurd all
  StringsAt-length low w (a ∷ places) [] all = absurd all
  StringsAt-length low w (a ∷ places) (s ∷ ss) all =
      omega (arith, StringsAt-length low w places ss all.1)

module _ {S : Type 0} (sw : StackWriter S) (peek : S → ℕ → ℕ) (law : IsWriter sw peek) where
  pub Safe-push_bytes :
      (p : Pusher S) (bs : List ℕ)
      → p.sp ≤ sw.top p.w
      → Safe
          (λ r.
            Grown sw peek p r.0
            × (r.1 ≡ r.0.sp)
            × (r.1 + length bs ≡ p.sp)
            × IsAt sw peek r.0.w r.1 bs)
          (push_bytes sw p bs)
  unfolding push_bytes
  Safe-push_bytes p bs fits =
      Safe-bind _ _ (Safe-ok_or (checked_sub p.sp (length bs)) _ (λ c e. checked_sub-eq-some _ _ e))
        λ sp is_sp. Safe-bind _ _ (Safe-reject_if (ltb sp (sw.bottom p.w)) _) λ _ above.
          Safe-bind _ _
            (law.writes p.w sp bs (not-ltb→le _ _ above) (omega (arith, is_sp.0, is_sp.1)))
            λ w wrote. returns (
              record {
                lower = omega (arith, is_sp.0);
                keep = record {
                  same_top = wrote.same_top;
                  same_bottom = wrote.same_bottom;
                  keeps = λ x h. wrote.keeps x (inr (omega (arith, is_sp.0, is_sp.1)));
                };
              },
              refl,
              omega (arith, is_sp.0, is_sp.1),
              wrote.shows,
            )

  -- A string above its terminator.
  joined :
      (w : S) (a : ℕ) (s : List ℕ)
      → IsAt sw peek w a s
      → peek w (a + length s) ≡ 0
      → IsAt sw peek w a (s ++ 0 ∷ [])
  joined w a [] shows nul zero v e = ap (peek w) (omega arith) ∙ nul ∙ some-injective 0 v e
  joined w a [] shows nul (suc k) v e = cc
  joined w a (c ∷ s) shows nul zero v e = shows zero v e
  joined w a (c ∷ s) shows nul (suc k) v e =
      ap (peek w) (omega arith)
      ∙ joined w (a + 1) s (λ j u f. ap (peek w) (omega arith) ∙ shows (suc j) u f)
          (ap (peek w) (omega arith) ∙ nul) k v e

  pub Safe-push_cstr :
      (p : Pusher S) (s : List ℕ)
      → p.sp ≤ sw.top p.w
      → Safe (λ r. Grown sw peek p r.0 × StringAt sw peek r.0.sp r.0.w r.1 s) (push_cstr sw p s)
  unfolding push_cstr
  Safe-push_cstr p [] fits =
      Safe-map (Safe-push_bytes p (0 ∷ []) fits) λ r h. (h.0, (omega (arith, h.1), h.3))
  Safe-push_cstr p (c ∷ s) fits = Safe-bind _ _ (Safe-push_bytes p (0 ∷ []) fits) λ r h.
      Safe-map (Safe-push_bytes r.0 (c ∷ s) (omega (arith, h.0.keep.same_top, h.0.lower))) λ r' h'.
        (
          Grown-trans sw peek h.0 h'.0,
          (
            omega (arith, h'.1),
            joined r'.0.w r'.1 (c ∷ s) h'.3 (
                h'.0.keep.keeps _ (omega (arith, h'.2))
                ∙ ap (peek r.0.w) (here _ _ _ _ h.1 h'.2)
                ∙ h.3 0 0 refl),
          ),
        )
    where
      here : (a b x n : ℕ) → b ≡ x → a + n ≡ x → a + n ≡ b + 0
      here a b x n e f = omega arith

  pub Safe-push_all :
      (p : Pusher S) (ss : List (List ℕ))
      → p.sp ≤ sw.top p.w
      → Safe (λ r. Grown sw peek p r.0 × StringsAt sw peek r.0.sp r.0.w r.1 ss) (push_all sw p ss)
  unfolding push_all
  Safe-push_all p [] fits = returns (
    record {
      lower = omega arith;
      keep = record { same_top = refl; same_bottom = refl; keeps = λ x h. refl };
    },
    tt,
  )
  Safe-push_all p (s ∷ ss) fits = Safe-bind _ _ (Safe-push_all p ss fits) λ r h.
      Safe-bind _ _ (Safe-push_cstr r.0 s (omega (arith, h.0.keep.same_top, h.0.lower))) λ r' h'.
        returns (
          Grown-trans sw peek h.0 h'.0,
          (h'.1, StringsAt-keep sw peek r.1 ss h'.0.lower h'.0.keep h.1),
        )
