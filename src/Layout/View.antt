-- ===== src/Layout/View.antt =====
-- rust/src/layout.rs: the methods of `LoadPlan`. An `Option` is an outcome with the error `tt`.
use app_elfloader.Prelude.{
  zero, subst, ℕ, ◌+◌, ◌-◌, ◌≤◌, ◌<◌, ◌≡◌, ◌≢◌, refl, sym, ap, ◌∙◌, Bool, ◌&&◌, Option, none, some,
  some-injective, List, [], ◌∷◌, get_elem?, get_elem?_bound, ltb, leb, if◌then◌else◌, arith, ltb→lt,
  leb→le, suc,
}
use app_elfloader.Outcome.{
  Outcome, ok, err, panic, index, ok_or, Safe, returns, fails, Safe-bind, Safe-bind_is, Safe-if,
  Safe-index, Safe-ok_or, Safe-map, Safe-ok, Safe-ne_panic, ◌>>=◌,
}
use app_elfloader.Word.{checked_add, checked_add-eq-some, sub64, Safe-sub64}
use app_elfloader.Elf.Header.{Phdr, is_exec}
use app_elfloader.Err.{Error}
use app_elfloader.Elf.Image.{Image}
use app_elfloader.Layout.Plan.{SegmentPlan, LoadPlan, range}
use app_elfloader.Layout.Plan.InPlace.{content, file_byte}
use app_elfloader.Layout.Plan.Arrange.{Arranged, all_placed, followed}
use app_elfloader.Layout.Plan.Sound.{IsSound}

unfoldable pub covers : LoadPlan → ℕ → Bool
covers p addr = leb p.base addr && ltb addr p.end

-- The loop of `phdr_addr` over the loads.
pub find_phdr : List Phdr → ℕ → ℕ → List ℕ → Outcome (Unit {0}) ℕ
find_phdr phdrs bias phoff [] = err tt
find_phdr phdrs bias phoff (i ∷ is) =
    let rest = find_phdr phdrs bias phoff is in
    index phdrs i >>= λ l.
    if leb l.p_offset phoff
    then (do
      file_end ← ok_or (checked_add l.p_offset l.p_filesz) tt
      (if ltb phoff file_end
          then (do
            distance ← sub64 phoff l.p_offset
            linked ← ok_or (checked_add distance l.p_vaddr) tt
            ok_or (checked_add linked bias) tt)
          else rest))
    else rest

-- `phdr_addr`, from the PT_PHDR entry, which comes first where the image has it.
pub phdr_from : LoadPlan → Image → Option Phdr → Outcome (Unit {0}) ℕ
unfolding find_phdr
phdr_from p image none = find_phdr image.phdrs p.bias image.ehdr.e_phoff image.loads
phdr_from p image (some ph) = ok_or (checked_add ph.p_vaddr p.bias) tt >>= λ addr.
    if covers p addr then ok addr else find_phdr image.phdrs p.bias image.ehdr.e_phoff image.loads

pub phdr_addr : LoadPlan → Image → Outcome (Unit {0}) ℕ
phdr_addr p image = phdr_from p image image.phdr_seg

-- `exec_ranges`; both closures of it panic out of range.
unfoldable pub exec_ranges_of : List Phdr → List SegmentPlan → Outcome Error (List (ℕ × ℕ))
exec_ranges_of phdrs [] = ok []
exec_ranges_of phdrs (seg ∷ segs) = do
  ph ← index phdrs seg.idx
  rest ← exec_ranges_of phdrs segs
  (if is_exec ph
      then (do (start, end) ← range seg; len ← sub64 end start; ok ((start, len) ∷ rest))
      else ok rest)

unfoldable pub exec_ranges : LoadPlan → Image → Outcome Error (List (ℕ × ℕ))
unfolding exec_ranges_of
exec_ranges p image = exec_ranges_of image.phdrs p.segments

-- The byte of the file at `off` stands at `addr` in one of the segments.
abbrev pub Shows : List SegmentPlan → ℕ → ℕ → Type 0
Shows segs off addr =
    (n : ℕ) × (seg : SegmentPlan) × (get_elem? segs n ≡ some seg)
    × (content seg addr ≡ file_byte off)

Safe-find_phdr :
    {phdrs : List Phdr} {page_size bias end lo : ℕ} (phoff : ℕ) {is : List ℕ}
    {segs : List SegmentPlan}
    → Arranged phdrs page_size bias end lo is segs
    → Safe (Shows segs phoff) (find_phdr phdrs bias phoff is)
unfolding find_phdr
Safe-find_phdr phoff (all_placed h) = fails
Safe-find_phdr {phdrs} {bias = bias} phoff (followed {i = i} {is} {seg} {segs} s h rest) =
    Safe-bind_is _ _
      (Safe-index phdrs i (get_elem?_bound phdrs i s.at)
        (λ x e. some-injective x s.entry (sym e ∙ s.at)))
      (Safe-if (leb l.p_offset phoff) _ _
        (λ starts.
          Safe-bind _ _
            (Safe-ok_or (checked_add l.p_offset l.p_filesz) tt
              (λ c e. (checked_add-eq-some _ _ e).0))
            λ file_end is_end.
              Safe-if (ltb phoff file_end) _ _
                (λ inside. Safe-bind_is _ _ (Safe-sub64 phoff l.p_offset (leb→le _ _ starts)) (
                  Safe-bind_is _ _
                    (Safe-ok_or (checked_add (phoff - l.p_offset) l.p_vaddr) tt
                      (λ c e. (checked_add-eq-some _ _ e).0))
                    (Safe-map
                      (Safe-ok_or (checked_add (phoff - l.p_offset + l.p_vaddr) bias) tt
                        (λ c e. (checked_add-eq-some _ _ e).0))
                      (λ addr e. (
                        0,
                        seg,
                        refl,
                        shown addr e (leb→le _ _ starts) (omega (arith, ltb→lt _ _ inside, is_end)),
                      )))))
                (λ _. later (Safe-find_phdr phoff rest)))
        (λ _. later (Safe-find_phdr phoff rest)))
  where
    l : Phdr
    l = s.entry

    later :
        Safe (Shows segs phoff) (find_phdr phdrs bias phoff is)
        → Safe (Shows (seg ∷ segs) phoff) (find_phdr phdrs bias phoff is)
    later found = Safe-map found λ addr (n, t, at, shows). (suc n, t, at, shows)

    shown :
        (addr : ℕ)
        → addr ≡ phoff - l.p_offset + l.p_vaddr + bias
        → l.p_offset ≤ phoff
        → phoff < l.p_offset + l.p_filesz
        → content seg addr ≡ file_byte phoff
    shown addr e above below =
        ap (content seg) here
        ∙ s.in_place.0 (phoff - l.p_offset) (omega arith)
        ∙ ap file_byte (omega arith)
      where
        here : addr ≡ l.p_vaddr + bias + (phoff - l.p_offset)
        here = omega arith

-- The PT_PHDR entry, where the image has one, names the place at which a load puts the program header
-- table: what the ELF format says of it.
abbrev pub NamesTable : Image → Type 0
NamesTable image =
    (ph : Phdr)
    → image.phdr_seg ≡ some ph
    → (n i : ℕ) × (l : Phdr) × (get_elem? image.loads n ≡ some i)
      × (get_elem? image.phdrs i ≡ some l)
      × (l.p_offset ≤ image.ehdr.e_phoff)
      × (image.ehdr.e_phoff < l.p_offset + l.p_filesz)
      × (ph.p_vaddr + l.p_offset ≡ l.p_vaddr + image.ehdr.e_phoff)

-- The bytes of a load stand at their addresses in the segment planned for it.
pub load_shown :
    {phdrs : List Phdr} {page_size bias end lo : ℕ} {is : List ℕ} {segs : List SegmentPlan}
    → Arranged phdrs page_size bias end lo is segs
    → (n i : ℕ) (l : Phdr) → get_elem? is n ≡ some i
    → get_elem? phdrs i ≡ some l
    → (k : ℕ) → k < l.p_filesz
    → Shows segs (l.p_offset + k) (l.p_vaddr + bias + k)
load_shown (all_placed h) n i l e1 e2 k inside = cc
load_shown {phdrs} {bias = bias} (followed {i = i'} {seg = seg} {segs} s h rest) zero i l e1 e2 k
      inside =
    subst
      (λ (x : Phdr).
        (k : ℕ) → k < x.p_filesz → Shows (seg ∷ segs) (x.p_offset + k) (x.p_vaddr + bias + k))
      (some-injective s.entry l (sym s.at ∙ ap (get_elem? phdrs) (some-injective i' i e1) ∙ e2))
      (λ k inside. (0, seg, refl, s.in_place.0 k inside)) k inside
load_shown (followed s h rest) (suc n) i l e1 e2 k inside =
    let (m, seg, at, shows) = load_shown rest n i l e1 e2 k inside in (suc m, seg, at, shows)

-- The address that `phdr_addr` returns.
pub Safe-phdr_addr :
    {page_size : ℕ} {image : Image} (pl : LoadPlan)
    → IsSound page_size image pl
    → Safe
        (λ addr. NamesTable image → Shows pl.segments image.ehdr.e_phoff addr)
        (phdr_addr pl image)
unfolding phdr_addr phdr_from covers
Safe-phdr_addr {image = image} pl sound = from image.phdr_seg refl
  where
    searched :
        Safe
          (λ addr. NamesTable image → Shows pl.segments image.ehdr.e_phoff addr)
          (find_phdr image.phdrs pl.bias image.ehdr.e_phoff image.loads)
    searched = Safe-map (Safe-find_phdr image.ehdr.e_phoff sound.arranged) λ addr shows names. shows

    named :
        (ph : Phdr) (addr : ℕ)
        → image.phdr_seg ≡ some ph
        → addr ≡ ph.p_vaddr + pl.bias
        → NamesTable image
        → Shows pl.segments image.ehdr.e_phoff addr
    named ph addr e is_addr names =
        let (n, i, l, at, entry, starts, ends, linked) = names ph e in
        let (m, seg, here, shows) =
          load_shown sound.arranged n i l at entry (image.ehdr.e_phoff - l.p_offset)
            (omega arith) in
        (
          m,
          seg,
          here,
          ap (content seg) (place ph l addr is_addr linked starts)
              ∙ shows
              ∙ ap file_byte (omega arith),
        )
      where
        place :
            (ph l : Phdr) (addr : ℕ)
            → addr ≡ ph.p_vaddr + pl.bias
            → ph.p_vaddr + l.p_offset ≡ l.p_vaddr + image.ehdr.e_phoff
            → l.p_offset ≤ image.ehdr.e_phoff
            → addr ≡ l.p_vaddr + pl.bias + (image.ehdr.e_phoff - l.p_offset)
        place ph l addr a b c = omega arith

    from :
        (o : Option Phdr)
        → image.phdr_seg ≡ o
        → Safe
            (λ addr. NamesTable image → Shows pl.segments image.ehdr.e_phoff addr)
            (phdr_from pl image o)
    from none e = searched
    from (some ph) e =
        Safe-bind _ _
          (Safe-ok_or (checked_add ph.p_vaddr pl.bias) tt (λ c x. (checked_add-eq-some _ _ x).0))
          λ addr is_addr.
            Safe-if (leb pl.base addr && ltb addr pl.end) _ _
              (λ _. returns (named ph addr e is_addr)) (λ _. searched)

-- For a plan that is sound, and an image whose PT_PHDR entry, where it has one, is at the place at which
-- a load puts the program header table: `phdr_addr` does not panic, and at an address that it returns a
-- segment of the plan shows the first byte of the program header table.
pub phdr_addr-Shows :
    {page_size : ℕ} {image : Image} (pl : LoadPlan)
    → IsSound page_size image pl
    → NamesTable image
    → (phdr_addr pl image ≢ panic)
      × ((addr : ℕ) → phdr_addr pl image ≡ ok addr → Shows pl.segments image.ehdr.e_phoff addr)
phdr_addr-Shows pl sound names =
    let safe = Safe-phdr_addr pl sound in (Safe-ne_panic safe, λ addr e. Safe-ok safe e names)
