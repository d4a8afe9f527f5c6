-- ===== src/Elf/Image/Classify.antt =====
-- The classification of the entries: which indices it takes for PT_LOAD, and what it checks.
use app_elfloader.Prelude.{
  ℕ, suc, ◌+◌, ◌≤◌, ◌<◌, ◌≡◌, sym, ap, ◌∙◌, Option, none, some, List, [], ◌∷◌, ◌++◌, get_elem?,
  arith, true, false, ltb, ◌==◌, ◌||◌, if◌then◌else◌, All, All-append, Bool-cases, inl, inr, ◌⊎◌,
  subst,
}
use mathlib.Core.List.{append-nil, append_assoc}
use app_elfloader.Outcome.{Safe, returns, Safe-bind, Safe-reject_if, Safe-ok_or, Safe-if, Safe-map}
use app_elfloader.Word.{u64_end, checked_add, checked_add-eq-some}
use app_elfloader.Word.Bits.{IsPowerOfTwo}
use app_elfloader.Elf.Header.{Phdr, pt_load, pt_interp, interp_max}
use app_elfloader.Elf.Header.Bounds.{PhdrFits}
use app_elfloader.Elf.Load.{ValidLoad, Safe-validate_load}
use app_elfloader.Elf.Image.{
  Found, check_interp_end, classify_load, classify_interp, classify_other, classify_one, classify,
}

-- The indices of the PT_LOAD entries, the first entry having index `i`.
abbrev pub load_indices : ℕ → List Phdr → List ℕ
load_indices i [] = []
load_indices i (ph ∷ rest) =
    let later = load_indices (i + 1) rest in if ph.p_type == pt_load then i ∷ later else later

-- An accepted PT_INTERP entry.
pub record ValidInterp (ph : Phdr) (size : Option ℕ) : Type 0 where
  pub type : ph.p_type ≡ pt_interp
  pub some_bytes : 0 < ph.p_filesz
  pub few_bytes : ph.p_filesz ≤ interp_max
  pub offset_fits : ph.p_offset < u64_end
  pub within_file : (n : ℕ) → size ≡ some n → ph.p_offset + ph.p_filesz ≤ n

abbrev pub InterpOk : Option ℕ → Option Phdr → Type 0
InterpOk size none = Unit
InterpOk size (some ph) = ValidInterp ph size

-- Index `i` is that of a PT_LOAD entry that passed `validate_load`.
pub record IsLoad (phdrs : List Phdr) (page_size : ℕ) (size : Option ℕ) (i : ℕ) : Type 0 where
  pub entry : Phdr
  pub at : get_elem? phdrs i ≡ some entry
  pub type : entry.p_type ≡ pt_load
  pub fits : PhdrFits entry
  pub valid : ValidLoad entry page_size size

Safe-check_interp_end :
    (size : Option ℕ) (ph : Phdr)
    → Safe (λ _. (n : ℕ) → size ≡ some n → ph.p_offset + ph.p_filesz ≤ n) (check_interp_end size ph)
unfolding check_interp_end
Safe-check_interp_end none ph = returns (λ n e. cc)
Safe-check_interp_end (some size) ph =
    Safe-bind _ _ (Safe-ok_or (checked_add ph.p_offset ph.p_filesz) _ (λ c e. e)) λ end end_fits.
      Safe-map (Safe-reject_if (ltb size end) _)
        λ _ within n e. ground (arith, checked_add-eq-some ph.p_offset ph.p_filesz end_fits)

loads-classify_other : (ph : Phdr) (found : Found) → (classify_other ph found).loads ≡ found.loads
unfolding classify_other
loads-classify_other ph found = ground arith

interp-classify_other :
    (ph : Phdr) (found : Found) → (classify_other ph found).interp ≡ found.interp
unfolding classify_other
interp-classify_other ph found = ground arith

module _ {page_size : ℕ} (p : IsPowerOfTwo page_size) (size : Option ℕ) where
  -- What one entry adds to the loads.
  abbrev added : ℕ → Phdr → List ℕ
  added i ph = if ph.p_type == pt_load then i ∷ [] else []

  pub record Step (phdrs : List Phdr) (i : ℕ) (ph : Phdr) (found found' : Found) : Type 0 where
    pub loads : found'.loads ≡ found.loads ++ added i ph
    pub each : All (IsLoad phdrs page_size size) found'.loads
    pub interp : InterpOk size found'.interp

  module _ (phdrs : List Phdr) (i : ℕ) (ph : Phdr) (at : get_elem? phdrs i ≡ some ph)
      (ph_fits : PhdrFits ph) (found : Found) (each : All (IsLoad phdrs page_size size) found.loads)
      (interp_ok : InterpOk size found.interp) where
    Safe-classify_load :
        ph.p_type ≡ pt_load → Safe (Step phdrs i ph found) (classify_load page_size size i ph found)
    unfolding classify_load
    Safe-classify_load type =
        Safe-bind _ _ (Safe-validate_load p ph size ph_fits.p_align) λ _ valid. returns (record {
          loads = ap (λ t. found.loads ++ t) (ground arith);
          each =
              All-append (IsLoad phdrs page_size size) found.loads (i ∷ []) each
                (record { entry = ph; at = at; type = type; fits = ph_fits; valid = valid }, tt);
          interp = interp_ok;
        })

    Safe-classify_interp :
        ph.p_type ≡ pt_interp → Safe (Step phdrs i ph found) (classify_interp size ph found)
    unfolding classify_interp
    Safe-classify_interp type = Safe-bind _ _ (Safe-reject_if _ _) λ _ _.
        Safe-bind _ _ (Safe-reject_if (ph.p_filesz == 0 || ltb interp_max ph.p_filesz) _)
          λ _ length_ok. Safe-bind _ _ (Safe-check_interp_end size ph) λ _ within. returns (record {
            loads = sym (append-nil found.loads) ∙ ap (λ t. found.loads ++ t) (ground arith);
            each = each;
            interp = record {
              type = type;
              some_bytes = ground arith;
              few_bytes = ground arith;
              offset_fits = ph_fits.p_offset;
              within_file = within;
            };
          })

    Safe-classify_one : Safe (Step phdrs i ph found) (classify_one page_size size i ph found)
    unfolding classify_one
    Safe-classify_one =
        Safe-if (ph.p_type == pt_load) _ _ (λ t. Safe-classify_load (ground arith))
          λ not_load.
            Safe-if (ph.p_type == pt_interp) _ _ (λ t. Safe-classify_interp (ground arith))
              λ other. returns (record {
                loads =
                    loads-classify_other ph found
                    ∙ sym (append-nil found.loads)
                    ∙ ap (λ t. found.loads ++ t) (ground arith);
                each =
                    subst (All (IsLoad phdrs page_size size)) (sym (loads-classify_other ph found))
                      each;
                interp = subst (InterpOk size) (sym (interp-classify_other ph found)) interp_ok;
              })

  pub record Classified (phdrs : List Phdr) (i : ℕ) (rest : List Phdr) (found result : Found)
      : Type 0 where
    pub loads : result.loads ≡ found.loads ++ load_indices i rest
    pub each : All (IsLoad phdrs page_size size) result.loads
    pub interp : InterpOk size result.interp

  -- The loop never panics; it appends the indices of the PT_LOAD entries, in order, each checked.
  pub Safe-classify :
      (phdrs : List Phdr) (i : ℕ) (rest : List Phdr) (found : Found)
      → ((j : ℕ) → get_elem? phdrs (i + j) ≡ get_elem? rest j)
      → All PhdrFits rest
      → All (IsLoad phdrs page_size size) found.loads
      → InterpOk size found.interp
      → Safe (Classified phdrs i rest found) (classify page_size size i rest found)
  unfolding classify
  Safe-classify phdrs i [] found at fits each interp_ok =
      returns (record { loads = sym (append-nil found.loads); each = each; interp = interp_ok })
  Safe-classify phdrs i (ph ∷ rest) found at fits each interp_ok =
      Safe-bind _ _ (Safe-classify_one phdrs i ph here fits.0 found each interp_ok) λ found' step.
        Safe-map (Safe-classify phdrs (i + 1) rest found' there fits.1 step.each step.interp)
          λ result r. record {
            loads =
                r.loads
                ∙ ap (λ t. t ++ load_indices (i + 1) rest) step.loads
                ∙ regroup found.loads (Bool-cases (ph.p_type == pt_load));
            each = r.each;
            interp = r.interp;
          }
    where
      here : get_elem? phdrs i ≡ some ph
      here = ap (get_elem? phdrs) (omega arith) ∙ at 0

      there : (j : ℕ) → get_elem? phdrs (i + 1 + j) ≡ get_elem? rest j
      there j = ap (get_elem? phdrs) (omega arith) ∙ at (suc j)

      regroup :
          (xs : List ℕ)
          → ((ph.p_type == pt_load) ≡ true) ⊎ ((ph.p_type == pt_load) ≡ false)
          → (xs ++ added i ph) ++ load_indices (i + 1) rest ≡ xs ++ load_indices i (ph ∷ rest)
      regroup xs (inl t) = rw t (append_assoc xs (i ∷ []) (load_indices (i + 1) rest))
      regroup xs (inr f) = rw (f, append-nil xs)
