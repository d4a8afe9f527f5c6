-- ===== src/Elf/Image/Order.antt =====
-- The order of the PT_LOAD entries, and the pages of neighbours.
use app_elfloader.Prelude.{
  ℕ, ◌+◌, ◌-◌, ◌≤◌, ◌<◌, ◌≡◌, sym, ◌∙◌, Option, List, [], ◌∷◌, get_elem?_bound, arith, false, ltb,
  ◌&&◌, All, Bool-cases, inl, inr, subst, some-injective,
}
use mathlib.Core.List.{Perm}
use mathlib.Core.List.Perm
use app_elfloader.Outcome.{
  index, Safe, returns, Safe-bind, Safe-reject_if, Safe-ok_or, Safe-index, Safe-map,
}
use app_elfloader.Word.{u64_end, Safe-add64}
use app_elfloader.Word.Align.{down, up, le-down, up-mod}
use app_elfloader.Word.Bits.{IsPowerOfTwo, IsPowerOfTwo-pos}
use app_elfloader.Elf.Header.{Phdr}
use app_elfloader.Elf.Reject.{Reject}
use app_elfloader.Elf.Align.{Safe-align_down, Safe-align_up}
use app_elfloader.Elf.Image.{insert_load, sort_loads, check_pair, check_overlaps}
use app_elfloader.Elf.Image.Classify.{IsLoad}

-- The two tests of the source together say that the pages are apart.
apart_pages :
    {a : ℕ}
    → 0 < a
    → (end v : ℕ) → (ltb v (up end a) && ltb (down v a) (down (up end a) a)) ≡ false
    → up end a ≤ down v a
apart_pages {a} pos end v h = elim (Bool-cases (ltb v (up end a))) [
  | inl below ↦ ground (arith, up-mod a pos end)
  | inr above ↦ le-down a pos (up end a) v (up-mod a pos end) (ground arith)
]

module _ (phdrs : List Phdr) {page_size : ℕ} (p : IsPowerOfTwo page_size) (size : Option ℕ) where
  abbrev Load : ℕ → Type 0
  Load = IsLoad phdrs page_size size

  Safe-entry : {i : ℕ} (l : Load i) → Safe {E = Reject} (λ x. x ≡ l.entry) (index phdrs i)
  Safe-entry {i} l =
      Safe-index phdrs i (get_elem?_bound phdrs i l.at)
        (λ x e. some-injective x l.entry (sym e ∙ l.at))

  Safe-insert_load :
      (i : ℕ) (js : List ℕ)
      → Load i
      → All Load js
      → Safe (λ r. Perm r (i ∷ js) × All Load r) (insert_load phdrs i js)
  unfolding insert_load
  Safe-insert_load i [] l each = returns (Perm.refl (i ∷ []), (l, tt))
  Safe-insert_load i (j ∷ js) l each = Safe-bind _ _ (Safe-entry l) λ a _.
      Safe-bind _ _ (Safe-entry each.0) λ b _.
        Safe-bind _ _ (Safe-insert_load i js l each.1) λ later r.
          returns (elim (Bool-cases (ltb b.p_vaddr a.p_vaddr)) [
            | inl t ↦ rw t (Perm.trans (Perm.cons j r.0) (Perm.swap i j js), (each.0, r.1))
            | inr f ↦ rw f (Perm.refl (i ∷ j ∷ js), (l, each))
          ])

  -- Sorting never panics and keeps the indices.
  pub Safe-sort_loads :
      (is : List ℕ) → All Load is → Safe (λ r. Perm r is × All Load r) (sort_loads phdrs is)
  unfolding sort_loads
  Safe-sort_loads [] each = returns (Perm.refl [], tt)
  Safe-sort_loads (i ∷ is) each = Safe-bind _ _ (Safe-sort_loads is each.1) λ sorted s.
      Safe-map (Safe-insert_load i sorted each.0 s.1) λ r h. (Perm.trans h.0 (Perm.cons i s.0), h.1)

  -- Two neighbours that pass share no page.
  Safe-check_pair :
      (a b : Phdr)
      → a.p_vaddr + a.p_memsz < u64_end
      → b.p_vaddr < u64_end
      → Safe
          (λ _. up (a.p_vaddr + a.p_memsz) page_size ≤ down b.p_vaddr page_size)
          (check_pair page_size a b)
  unfolding check_pair
  Safe-check_pair a b a_fits b_fits = Safe-bind _ _ (Safe-add64 a.p_vaddr a.p_memsz a_fits) λ end e.
      Safe-bind _ _ (Safe-align_up p end) λ rounded r.
        Safe-bind _ _ (Safe-ok_or rounded _ (λ x s. r x s)) λ a_end ends.
          Safe-bind _ _ (Safe-align_down p b.p_vaddr b_fits) λ b_page d.
            Safe-bind _ _ (Safe-align_down p a_end (omega arith)) λ a_page g.
              Safe-map (Safe-reject_if (ltb b.p_vaddr a_end && ltb b_page a_page) _) λ _ apart.
                apart_pages (IsPowerOfTwo-pos p) (a.p_vaddr + a.p_memsz) b.p_vaddr
                  (same e ends d g apart)
    where
      same :
          {end a_end b_page a_page : ℕ}
          → end ≡ a.p_vaddr + a.p_memsz
          → (a_end ≡ up end page_size) × (end + (page_size - 1) < u64_end)
          → b_page ≡ down b.p_vaddr page_size
          → a_page ≡ down a_end page_size
          → (ltb b.p_vaddr a_end && ltb b_page a_page) ≡ false
          → (ltb b.p_vaddr (up (a.p_vaddr + a.p_memsz) page_size)
              && ltb
                  (down b.p_vaddr page_size)
                  (down (up (a.p_vaddr + a.p_memsz) page_size) page_size))
            ≡ false
      same e ends d g h = rw (← e, ← ends.0, ← d, ← g) h

-- A list of PT_LOAD indices in ascending order, no two on one page, from address `lo` on.
pub data Chain (phdrs : List Phdr) (page_size : ℕ) (size : Option ℕ) : ℕ → List ℕ → Type 0 where
  done : {lo : ℕ} → Chain phdrs page_size size lo []
  link :
      {lo i : ℕ} {is : List ℕ} (l : IsLoad phdrs page_size size i)
      → lo ≤ down l.entry.p_vaddr page_size
      → Chain phdrs page_size size (up (l.entry.p_vaddr + l.entry.p_memsz) page_size) is
      → Chain phdrs page_size size lo (i ∷ is)

module _ (phdrs : List Phdr) {page_size : ℕ} (p : IsPowerOfTwo page_size) (size : Option ℕ) where
  -- Neighbours that all pass make a chain.
  pub Safe-check_overlaps :
      (lo i : ℕ) (is : List ℕ) (l : IsLoad phdrs page_size size i)
      → All (IsLoad phdrs page_size size) is
      → lo ≤ down l.entry.p_vaddr page_size
      → Safe (λ _. Chain phdrs page_size size lo (i ∷ is)) (check_overlaps phdrs page_size (i ∷ is))
  unfolding check_overlaps
  Safe-check_overlaps lo i [] l each h = returns (link l h done)
  Safe-check_overlaps lo i (j ∷ rest) l each h = Safe-bind _ _ (Safe-entry phdrs p size l) λ a ea.
      Safe-bind _ _ (Safe-entry phdrs p size each.0) λ b eb.
        Safe-bind _ _ (Safe-check_pair phdrs p size a b (fits ea) (starts eb)) λ _ apart.
          Safe-map
            (Safe-check_overlaps (up (l.entry.p_vaddr + l.entry.p_memsz) page_size) j rest each.0
              each.1 (moved ea eb apart))
            λ _ chain. link l h chain
    where
      fits : {a : Phdr} → a ≡ l.entry → a.p_vaddr + a.p_memsz < u64_end
      fits e = subst (λ (x : Phdr). x.p_vaddr + x.p_memsz < u64_end) (sym e) l.valid.memory_fits

      starts : {b : Phdr} → b ≡ each.0.entry → b.p_vaddr < u64_end
      starts e = subst (λ (x : Phdr). x.p_vaddr < u64_end) (sym e) each.0.fits.p_vaddr

      moved :
          {a b : Phdr}
          → a ≡ l.entry
          → b ≡ each.0.entry
          → up (a.p_vaddr + a.p_memsz) page_size ≤ down b.p_vaddr page_size
          → up (l.entry.p_vaddr + l.entry.p_memsz) page_size ≤ down each.0.entry.p_vaddr page_size
      moved {a} {b} ea eb h =
          subst
            (λ (x : Phdr).
              up (l.entry.p_vaddr + l.entry.p_memsz) page_size ≤ down x.p_vaddr page_size)
            eb
            (subst (λ (x : Phdr). up (x.p_vaddr + x.p_memsz) page_size ≤ down b.p_vaddr page_size)
              ea h)
