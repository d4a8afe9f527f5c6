-- ===== src/Auxv/Words.antt =====
-- The pointer block, as `write_words` leaves it in memory.
use app_elfloader.Prelude.{
  ℕ, zero, suc, ◌+◌, ◌*◌, ◌≤◌, ◌<◌, ◌≡◌, inl, inr, refl, ap, ◌∙◌, List, [], ◌∷◌, ◌++◌, length,
  get_elem?, get_elem?_bound, some, arith,
}
use app_elfloader.Outcome.{Safe, returns, Safe-bind, Safe-bind_is, Safe-map}
use app_elfloader.Word.{u64_end, Safe-add64}
use app_elfloader.Elf.Header.Encode.{little_endian}
use app_elfloader.Auxv.{StackWriter, write_words}
use app_elfloader.Auxv.Writer.{IsAt, IsWriter, KeepsFrom}

-- The words as they stand in memory.
abbrev pub words_bytes : List ℕ → List ℕ
words_bytes [] = []
words_bytes (v ∷ vs) = little_endian 8 v ++ words_bytes vs

pub words_bytes-length : (vs : List ℕ) → length (words_bytes vs) ≡ 8 * length vs
words_bytes-length [] = refl
words_bytes-length (v ∷ vs) = omega (arith, words_bytes-length vs)

module _ {S : Type 0} (sw : StackWriter S) (peek : S → ℕ → ℕ) (law : IsWriter sw peek) where
  -- Two stretches, the second right behind the first.
  IsAt-append :
      (w : S) (a : ℕ) (bs cs : List ℕ)
      → IsAt sw peek w a bs
      → IsAt sw peek w (a + length bs) cs
      → IsAt sw peek w a (bs ++ cs)
  IsAt-append w a [] cs h k j v e = ap (peek w) (omega arith) ∙ k j v e
  IsAt-append w a (b ∷ bs) cs h k zero v e = h zero v e
  IsAt-append w a (b ∷ bs) cs h k (suc j) v e =
      ap (peek w) (omega arith)
      ∙ IsAt-append w (a + 1) bs cs (λ i u f. ap (peek w) (omega arith) ∙ h (suc i) u f)
          (λ i u f. ap (peek w) (omega arith) ∙ k i u f) j v e

  pub Safe-write_words :
      (w : S) (at : ℕ) (vs : List ℕ)
      → sw.bottom w ≤ at
      → at + 8 * length vs ≤ sw.top w
      → sw.top w < u64_end
      → Safe
          (λ r.
            KeepsFrom sw peek (at + 8 * length vs) w r.0
            × IsAt sw peek r.0 at (words_bytes vs)
            × ((x : ℕ) → x < at → peek r.0 x ≡ peek w x))
          (write_words sw w at vs)
  unfolding write_words
  Safe-write_words w at [] low high room = returns (
    record { same_top = refl; same_bottom = refl; keeps = λ x h. refl },
    λ k v e. cc,
    λ x h. refl,
  )
  Safe-write_words w at (v ∷ vs) low high room =
      Safe-bind _ _ (law.writes w at (little_endian 8 v) low (omega arith)) λ w' wrote.
        Safe-bind_is _ _ (Safe-add64 at 8 (omega arith)) (
          Safe-map
            (Safe-write_words w' (at + 8) vs (omega (arith, wrote.same_bottom))
              (omega (arith, wrote.same_top)) (omega (arith, wrote.same_top)))
            λ r (keep, shows, under). (
              record {
                same_top = keep.same_top ∙ wrote.same_top;
                same_bottom = keep.same_bottom ∙ wrote.same_bottom;
                keeps = λ x h. keep.keeps x (omega arith) ∙ wrote.keeps x (inr (omega arith));
              },
              IsAt-append r.0 at (little_endian 8 v) (words_bytes vs)
                  (λ k u e. under (at + k) (inside k u e) ∙ wrote.shows k u e) shows,
              λ x h. under x (omega arith) ∙ wrote.keeps x (inl h),
            ))
    where
      inside : (k u : ℕ) → get_elem? (little_endian 8 v) k ≡ some u → at + k < at + 8
      inside k u e = omega (arith, get_elem?_bound (little_endian 8 v) k e)
