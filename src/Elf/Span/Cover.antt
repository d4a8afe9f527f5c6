-- ===== src/Elf/Span/Cover.antt =====
-- The span of an image and the segments in it.
use app_elfloader.Prelude.{
  Bool, ℕ, zero, suc, ◌+◌, ◌%◌, ◌≤◌, ◌<◌, ◌≡◌, ◌≢◌, refl, sym, ap, ◌∙◌, Option, some,
  some-injective, List, [], ◌∷◌, get_elem?, get_elem?_bound, arith, ltb→lt, true, ltb, ◌&&◌,
  Bool-cases, inl, inr, All, All-get_elem?, subst,
}
use app_elfloader.Outcome.{
  ok, panic, index, Safe, returns, Safe-bind, Safe-ok_or, Safe-index, Safe-index_at, Safe-map,
  Safe-ok, Safe-ne_panic,
}
use app_elfloader.Word.{u64_end, Safe-add64}
use app_elfloader.Word.Align.{down, up, down-mod, le-up, up-mod}
use app_elfloader.Word.Bits.{IsPowerOfTwo, IsPowerOfTwo-pos}
use app_elfloader.Err.{Error}
use app_elfloader.Elf.Header.{Phdr}
use app_elfloader.Elf.Align.{
  Safe-align_down, Safe-align_up, is_power_of_two, is_power_of_two-IsPowerOfTwo,
}
use app_elfloader.Elf.Image.{Image, parse_image}
use app_elfloader.Elf.Image.Classify.{IsLoad}
use app_elfloader.Elf.Image.Order.{Chain, done, link}
use app_elfloader.Elf.Image.Parse.{IsWellFormed, parse_image-IsWellFormed}
use app_elfloader.Elf.Source.{ImageSource, IsReader}
use native.Mathlib.Nat.{le_refl}
use mathlib.Core.Bool.{false≢true}
use app_elfloader.Elf.Span.{load_align, last_of, span_of, va_span, strongest}

module _ (phdrs : List Phdr) {page_size : ℕ} (p : IsPowerOfTwo page_size) (size : Option ℕ) where
  -- One past the last page of a chain.
  abbrev pub chain_end : {lo : ℕ} {is : List ℕ} → Chain phdrs page_size size lo is → ℕ
  chain_end (done {lo}) = lo
  chain_end (link l h rest) = chain_end rest

  -- The segment of index `i` lies in `[lo, hi)`, rounded to pages.
  abbrev pub LiesIn : ℕ → ℕ → ℕ → Type 0
  LiesIn lo hi i =
      (ph : Phdr)
      → get_elem? phdrs i ≡ some ph
      → (lo ≤ down ph.p_vaddr page_size) × (up (ph.p_vaddr + ph.p_memsz) page_size ≤ hi)

  page_end_above : (ph : Phdr) → down ph.p_vaddr page_size ≤ up (ph.p_vaddr + ph.p_memsz) page_size
  page_end_above ph = omega (arith, le-up page_size (IsPowerOfTwo-pos p) (ph.p_vaddr + ph.p_memsz))

  pub le-chain_end :
      {lo : ℕ} {is : List ℕ} (c : Chain phdrs page_size size lo is) → lo ≤ chain_end c
  le-chain_end done = omega arith
  le-chain_end (link l h rest) = omega (arith, le-chain_end rest, page_end_above l.entry)

  chain_end-aligned :
      {lo : ℕ} {is : List ℕ} (c : Chain phdrs page_size size lo is)
      → lo % page_size ≡ 0
      → chain_end c % page_size ≡ 0
  chain_end-aligned done h = h
  chain_end-aligned (link l h rest) k =
      chain_end-aligned rest
        (up-mod page_size (IsPowerOfTwo-pos p) (l.entry.p_vaddr + l.entry.p_memsz))

  same_entry :
      {i : ℕ} (l : IsLoad phdrs page_size size i) (ph : Phdr)
      → get_elem? phdrs i ≡ some ph
      → l.entry ≡ ph
  same_entry l ph e = some-injective l.entry ph (sym l.at ∙ e)

  pub Chain-LiesIn :
      (low : ℕ) {lo : ℕ} {is : List ℕ} (c : Chain phdrs page_size size lo is)
      → low ≤ lo
      → All (LiesIn low (chain_end c)) is
  Chain-LiesIn low done h = tt
  Chain-LiesIn low (link l h rest) k = (
    λ ph e.
        subst
          (λ (x : Phdr).
            (low ≤ down x.p_vaddr page_size)
            × (up (x.p_vaddr + x.p_memsz) page_size ≤ chain_end rest))
          (same_entry l ph e) (omega arith, le-chain_end rest),
    Chain-LiesIn low rest (omega (arith, page_end_above l.entry)),
  )

  -- In a chain, a segment that stands earlier ends on a page before the later one's first.
  pub Chain-apart :
      {lo : ℕ} {is : List ℕ}
      → Chain phdrs page_size size lo is
      → (m n i j : ℕ) (a b : Phdr) → m < n
      → get_elem? is m ≡ some i
      → get_elem? is n ≡ some j
      → get_elem? phdrs i ≡ some a
      → get_elem? phdrs j ≡ some b
      → up (a.p_vaddr + a.p_memsz) page_size ≤ down b.p_vaddr page_size
  Chain-apart done m n i j a b h ei ej ea eb = cc
  Chain-apart (link l k rest) zero zero i j a b h ei ej ea eb = elim h [ ]
  Chain-apart (link {i = i'} {is} l k rest) zero (suc n) i j a b h ei ej ea eb =
      subst (λ (x : Phdr). up (x.p_vaddr + x.p_memsz) page_size ≤ down b.p_vaddr page_size)
        (same_entry l a (ap (get_elem? phdrs) (some-injective i' i ei) ∙ ea))
        (All-get_elem? (LiesIn (up (l.entry.p_vaddr + l.entry.p_memsz) page_size) (chain_end rest))
          is n (Chain-LiesIn _ rest (le_refl _)) ej b eb).0
  Chain-apart (link l k rest) (suc m) zero i j a b h ei ej ea eb = elim h [ ]
  Chain-apart (link l k rest) (suc m) (suc n) i j a b h ei ej ea eb =
      Chain-apart rest m n i j a b (omega arith) ei ej ea eb

  last_is :
      {lo i : ℕ} {is : List ℕ} (c : Chain phdrs page_size size lo (i ∷ is))
      → Safe {E = Error}
          (λ j.
            (l : IsLoad phdrs page_size size j) × (up (l.entry.p_vaddr + l.entry.p_memsz) page_size
              ≡ chain_end c))
          (last_of (i ∷ is))
  unfolding last_of
  last_is (link l h done) = returns (l, refl)
  last_is (link l h (link l' h' rest)) = last_is (link l' h' rest)

  pub Chain-IsLoad :
      {lo : ℕ} {is : List ℕ}
      → Chain phdrs page_size size lo is
      → All (IsLoad phdrs page_size size) is
  Chain-IsLoad done = tt
  Chain-IsLoad (link l h rest) = (l, Chain-IsLoad rest)

  -- What `va_span` returns for a chain.
  pub record IsSpan {is : List ℕ} (c : Chain phdrs page_size size 0 is) (lo hi : ℕ) : Type 0 where
    pub ends : hi ≡ chain_end c
    pub fits : hi < u64_end
    pub lo_aligned : lo % page_size ≡ 0
    pub hi_aligned : hi % page_size ≡ 0
    pub ordered : lo ≤ hi
    pub covers : All (LiesIn lo hi) is

  pub Safe-span_of :
      {is : List ℕ} (c : Chain phdrs page_size size 0 is)
      → is ≢ []
      → Safe (λ s. IsSpan c s.0 s.1) (span_of phdrs is page_size)
  unfolding span_of
  Safe-span_of done n = absurd (n refl)
  Safe-span_of {is} (link {i = i} {is = later} l h rest) n =
      Safe-bind _ _ (Safe-index_at is 0 (omega arith)) λ i' ei.
        Safe-bind _ _ (Safe-first i' ei) λ first ef.
          Safe-bind _ _ (last_is (link l h rest)) λ j last_ok.
            Safe-bind _ _
              (Safe-index phdrs j (get_elem?_bound phdrs j last_ok.0.at)
                (λ x e. same_entry last_ok.0 x e))
              λ last el.
                Safe-bind _ _
                  (Safe-align_down p first.p_vaddr
                    (subst (λ (x : Phdr). x.p_vaddr < u64_end) ef l.fits.p_vaddr))
                  λ lo elo.
                    Safe-bind _ _
                      (Safe-add64 last.p_vaddr last.p_memsz (
                        subst (λ (x : Phdr). x.p_vaddr + x.p_memsz < u64_end) el
                          last_ok.0.valid.memory_fits))
                      λ end eend. Safe-bind _ _ (Safe-align_up p end) λ rounded er.
                        Safe-bind _ _ (Safe-ok_or rounded _ er) λ hi ehi. returns (
                          finish (elo ∙ ap (λ (x : Phdr). down x.p_vaddr page_size) (sym ef))
                            (ehi.0
                              ∙ ap (λ (t : ℕ). up t page_size)
                                  (eend ∙ ap (λ (x : Phdr). x.p_vaddr + x.p_memsz) (sym el))
                              ∙ last_ok.1)
                            (omega arith))
    where
      Safe-first :
          (i' : ℕ)
          → get_elem? (i ∷ later) 0 ≡ some i'
          → Safe {E = Error} (λ x. l.entry ≡ x) (index phdrs i')
      Safe-first i' e =
          let at : get_elem? phdrs i' ≡ some l.entry =
            ap (get_elem? phdrs) (sym (some-injective i i' e)) ∙ l.at in
          Safe-index phdrs i' (get_elem?_bound phdrs i' at)
            (λ x ex. some-injective l.entry x (sym at ∙ ex))

      finish :
          {lo hi : ℕ}
          → lo ≡ down l.entry.p_vaddr page_size
          → hi ≡ chain_end rest
          → hi < u64_end
          → IsSpan (link l h rest) lo hi
      finish {lo} {hi} elo ehi fits = record {
        ends = ehi;
        fits = fits;
        lo_aligned =
            ap (λ (t : ℕ). t % page_size) elo
            ∙ down-mod page_size (IsPowerOfTwo-pos p) l.entry.p_vaddr;
        hi_aligned =
            ap (λ (t : ℕ). t % page_size) ehi
            ∙ chain_end-aligned rest
                (up-mod page_size (IsPowerOfTwo-pos p) (l.entry.p_vaddr + l.entry.p_memsz));
        ordered = omega (arith, le-chain_end rest, page_end_above l.entry);
        covers =
            subst (λ t. All (LiesIn t hi) (i ∷ later)) (sym elo)
              (subst (λ t. All (LiesIn (down l.entry.p_vaddr page_size) t) (i ∷ later)) (sym ehi)
                (Chain-LiesIn _ (link l (le_refl _) rest) (le_refl _)));
      }

module _ {native page_size : ℕ} (p : IsPowerOfTwo page_size) {size : Option ℕ} {image : Image}
    (w : IsWellFormed native page_size size image) where
  pub Safe-va_span : Safe (λ s. IsSpan image.phdrs p size w.chain s.0 s.1) (va_span image page_size)
  unfolding va_span
  Safe-va_span = Safe-span_of image.phdrs p size w.chain w.loads_nonempty

  -- For a well-formed image `va_span` does not panic, and the span that it returns is page-aligned at
  -- both ends and holds every loadable segment, rounded to pages.
  pub va_span_covers :
      (va_span image page_size ≢ panic)
      × ((lo hi : ℕ)
          → va_span image page_size ≡ ok (lo, hi)
          → (lo % page_size ≡ 0)
            × (hi % page_size ≡ 0)
            × (lo ≤ hi)
            × All (LiesIn image.phdrs p size lo hi) image.loads)
  va_span_covers = (
    Safe-ne_panic Safe-va_span,
    λ lo hi e.
        let s : IsSpan image.phdrs p size w.chain lo hi = Safe-ok Safe-va_span e in
        (s.lo_aligned, s.hi_aligned, s.ordered, s.covers),
  )

  -- Every index among the loads is that of a checked PT_LOAD entry.
  pub loads-IsLoad : All (IsLoad image.phdrs page_size size) image.loads
  loads-IsLoad = Chain-IsLoad image.phdrs p size w.chain

both_tests :
    (x y : ℕ) → (ltb x y && is_power_of_two y) ≡ true → (x < y) × (is_power_of_two y ≡ true)
both_tests x y h = elim (Bool-cases (ltb x y)) [
  | inl t ↦ (ltb→lt x y t, rw t at h)
  | inr f ↦ absurd (false≢true (rw f at h))
]

-- The alignment that `load_align` finds is a power of two, and no less than the one it starts from.
module _ (phdrs : List Phdr) (page_size : ℕ) (size : Option ℕ) where
  pub Safe-strongest :
      (is : List ℕ) (a : ℕ)
      → All (IsLoad phdrs page_size size) is
      → IsPowerOfTwo a
      → Safe (λ r. IsPowerOfTwo r × (a ≤ r)) (strongest phdrs is a)
  unfolding strongest
  Safe-strongest [] a each p = returns (p, le_refl a)
  Safe-strongest (i ∷ is) a each p =
      Safe-bind _ _
        (Safe-index phdrs i (get_elem?_bound phdrs i each.0.at)
          (λ x e. some-injective each.0.entry x (sym each.0.at ∙ e)))
        λ ph e.
          let fits : ph.p_align < u64_end =
            subst (λ (x : Phdr). x.p_align < u64_end) e each.0.fits.p_align in
          elim (Bool-cases (ltb a ph.p_align && is_power_of_two ph.p_align)) [
            | inl t ↦ rw t (
                Safe-map
                  (Safe-strongest is ph.p_align each.1
                    (is_power_of_two-IsPowerOfTwo ph.p_align fits (both_tests a ph.p_align t).1))
                  (λ r h. (h.0, omega (arith, (both_tests a ph.p_align t).0, h.1))))
            | inr f ↦ rw f (Safe-strongest is a each.1 p)
          ]

pub Safe-load_align :
    {native page_size : ℕ} (p : IsPowerOfTwo page_size) {size : Option ℕ} {image : Image}
    → IsWellFormed native page_size size image
    → Safe (λ a. IsPowerOfTwo a × (page_size ≤ a)) (load_align image page_size)
unfolding load_align
Safe-load_align {page_size = page_size} p {size} {image} w =
    Safe-strongest image.phdrs page_size size image.loads page_size (loads-IsLoad p w) p

-- In an image that `Image::parse` accepts from a source of bytes, with a page size that is a power of
-- two, of any two loadable segments the one that stands earlier among the loads ends, rounded up to a
-- page, at or below the later one's start, rounded down to a page.
pub loads_apart :
    {page_size : ℕ} (p : IsPowerOfTwo page_size) (reserve : ℕ → Bool) (native : ℕ)
    {src : ImageSource}
    → IsReader src
    → (image : Image) → parse_image reserve native src page_size ≡ ok image
    → (m n i j : ℕ) (a b : Phdr) → m < n
    → get_elem? image.loads m ≡ some i
    → get_elem? image.loads n ≡ some j
    → get_elem? image.phdrs i ≡ some a
    → get_elem? image.phdrs j ≡ some b
    → up (a.p_vaddr + a.p_memsz) page_size ≤ down b.p_vaddr page_size
loads_apart p reserve native {src} reader image accepted =
    let w = (parse_image-IsWellFormed reserve native reader p).1 image accepted in
    Chain-apart image.phdrs p src.size w.chain
