-- ===== src/Layout/Plan/Arrange.antt =====
-- The segment plans of a whole image, in order and apart.
use app_elfloader.Prelude.{
  ℕ, ◌+◌, ◌-◌, ◌%◌, ◌≤◌, ◌<◌, ◌≡◌, refl, sym, ap, ◌∙◌, Option, some, some-injective, List, [], ◌∷◌,
  get_elem?, get_elem?_bound, arith, subst,
}
use app_elfloader.Outcome.{Safe, returns, Safe-bind, Safe-bind_is, Safe-index}
use app_elfloader.Word.{u64_end}
use app_elfloader.Word.Bits.{IsPowerOfTwo, IsPowerOfTwo-pos}
use app_elfloader.Word.Align.{down, up, down-le, le-up, add-mod_multiple}
use app_elfloader.Elf.Header.{Phdr}
use app_elfloader.Elf.Image.Classify.{IsLoad}
use app_elfloader.Elf.Image.Order.{Chain, done, link}
use app_elfloader.Elf.Span.Cover.{chain_end, le-chain_end}
use app_elfloader.Layout.Plan.{SegmentPlan, prot_of, plan_segments}
use app_elfloader.Layout.Plan.Segment.{segment_of, Safe-plan_segment}
use app_elfloader.Layout.Plan.Shape.{IsShape, segment_of-IsShape}
use app_elfloader.Layout.Plan.InPlace.{IsInPlace, segment_of-IsInPlace}

-- What one entry of the plan is, at the load of index `i`.
pub record IsPlanOf (phdrs : List Phdr) (page_size bias i : ℕ) (seg : SegmentPlan) : Type 0 where
  pub entry : Phdr
  pub at : get_elem? phdrs i ≡ some entry
  pub idx : seg.idx ≡ i
  pub prot : seg.prot ≡ prot_of entry
  pub in_place : IsInPlace page_size (entry.p_vaddr + bias) entry seg
  pub shape :
      IsShape page_size
        (down (entry.p_vaddr + bias) page_size)
        (up (entry.p_vaddr + bias + entry.p_memsz) page_size)
        seg

-- The plans of the loads `is` take pages of `[lo, end)`, each of its own, in ascending order.
pub data Arranged (phdrs : List Phdr) (page_size bias end : ℕ)
    : ℕ → List ℕ → List SegmentPlan → Type 0 where
  all_placed : {lo : ℕ} → lo ≤ end → Arranged phdrs page_size bias end lo [] []
  followed :
      {lo i : ℕ} {is : List ℕ} {seg : SegmentPlan} {segs : List SegmentPlan}
      (s : IsPlanOf phdrs page_size bias i seg)
      → lo ≤ down (s.entry.p_vaddr + bias) page_size
      → Arranged phdrs page_size bias end
          (up (s.entry.p_vaddr + bias + s.entry.p_memsz) page_size)
          is
          segs
      → Arranged phdrs page_size bias end lo (i ∷ is) (seg ∷ segs)

-- The pages of an arranged list end below the end.
pub Arranged-le :
    {phdrs : List Phdr} {page_size bias end lo : ℕ} {is : List ℕ} {segs : List SegmentPlan}
    → Arranged phdrs page_size bias end lo is segs
    → lo ≤ end
Arranged-le (all_placed h) = h
Arranged-le (followed s h rest) = omega (arith, Arranged-le rest, s.shape.start_le, s.shape.mid_le)

module _ (a bias : ℕ) (pos : 0 < a) (aligned : bias % a ≡ 0) where
  -- A bias of whole pages moves the rounding along.
  down-bias : (v : ℕ) → down (v + bias) a ≡ down v a + bias
  down-bias v = omega (arith, add-mod_multiple a pos v bias aligned, down-le a pos v)

  up-bias : (v m : ℕ) → up (v + bias + m) a ≡ up (v + m) a + bias
  up-bias v m = ap (λ (t : ℕ). down t a) moved ∙ down-bias (v + m + (a - 1))
    where
      moved : v + bias + m + (a - 1) ≡ v + m + (a - 1) + bias
      moved = omega arith

module _ (phdrs : List Phdr) (page_size : ℕ) (size : Option ℕ) where
  -- The first segment of a chain starts at or above `lo`.
  abbrev pub StartsAt : ℕ → {from : ℕ} {is : List ℕ} → Chain phdrs page_size size from is → Type 0
  StartsAt start (done {lo}) = start ≤ lo
  StartsAt start (link l h rest) = start ≤ down l.entry.p_vaddr page_size

  pub own_start :
      {from : ℕ} {is : List ℕ} (c : Chain phdrs page_size size from is) → StartsAt from c
  own_start done = omega arith
  own_start (link l h rest) = h

module _ (phdrs : List Phdr) {page_size : ℕ} (p : IsPowerOfTwo page_size) (size : Option ℕ)
    (bias : ℕ) (aligned : bias % page_size ≡ 0) where
  planned :
      {i : ℕ} (l : IsLoad phdrs page_size size i)
      → IsPlanOf phdrs page_size bias i (segment_of page_size bias i l.entry)
  planned {i} l = record {
    entry = l.entry;
    at = l.at;
    idx = refl;
    prot = refl;
    in_place = segment_of-IsInPlace p bias i l.entry l.valid aligned;
    shape = segment_of-IsShape p bias i l.entry l.valid;
  }

  pub Safe-plan_segments :
      (lo : ℕ) {from : ℕ} {is : List ℕ} (c : Chain phdrs page_size size from is)
      → StartsAt phdrs page_size size lo c
      → chain_end phdrs p size c + bias < u64_end
      → Safe
          (Arranged phdrs page_size bias (chain_end phdrs p size c + bias) (lo + bias) is)
          (plan_segments page_size bias phdrs is)
  unfolding plan_segments planned
  Safe-plan_segments lo done starts fits = returns (all_placed (omega arith))
  Safe-plan_segments lo (link {i = i} {is} l h rest) starts fits =
      Safe-bind_is _ _
        (Safe-index phdrs i (get_elem?_bound phdrs i l.at)
          (λ x e. some-injective x l.entry (sym e ∙ l.at)))
        (Safe-bind_is _ _
          (Safe-plan_segment p l.entry bias i l.valid aligned (
            omega (
              arith,
              le-chain_end phdrs p size rest,
              le-up page_size pos (l.entry.p_vaddr + l.entry.p_memsz),
            )))
          (Safe-bind _ _
            (Safe-plan_segments (up (l.entry.p_vaddr + l.entry.p_memsz) page_size) rest
              (own_start phdrs page_size size rest) fits)
            λ segs arranged. returns (
              followed (planned l)
                (omega (arith, starts, down-bias page_size bias pos aligned l.entry.p_vaddr))
                (subst
                  (λ t.
                    Arranged phdrs page_size bias (chain_end phdrs p size rest + bias) t is segs)
                  (sym (up-bias page_size bias pos aligned l.entry.p_vaddr l.entry.p_memsz))
                  arranged))))
    where
      pos : 0 < page_size
      pos = IsPowerOfTwo-pos p
