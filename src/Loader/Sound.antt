-- ===== src/Loader/Sound.antt =====
-- What `load_mapped` promises, all steps together.
use app_elfloader.Prelude.{
  ℕ, ◌+◌, ◌%◌, ◌≤◌, ◌<◌, ◌≡◌, ◌⊎◌, inl, inr, refl, Bool, true, false, Option, some, arith, subst,
  sym, ap, ap₂, ◌∙◌, All-get_elem?, if◌then◌else◌, some-injective, get_elem?,
}
use app_elfloader.Prelude.Int.{ℤ}
use app_elfloader.Outcome.{Safe, Safe-intro, ok-injective}
use app_elfloader.Action.{
  Post, Post-map, Post-bind, Post-done, Post-pure, Post-pure_eq, Post-or_else,
}
use app_elfloader.Word.Bits.{IsPowerOfTwo, IsPowerOfTwo-pos}
use app_elfloader.Word.Align.{down, up, down-le, le-up}
use app_elfloader.Elf.Header.{Phdr}
use app_elfloader.Elf.Image.{Image}
use app_elfloader.Elf.Image.Parse.{IsWellFormed}
use app_elfloader.Elf.Span.Cover.{Safe-va_span, loads-IsLoad}
use app_elfloader.Elf.Image.Classify.{IsLoad}
use app_elfloader.Layout.Plan.{Placement, fixed, at, LoadPlan, plan, prot_none, prot_of}
use app_elfloader.Layout.Plan.Place.{Safe-reservation_len}
use app_elfloader.Layout.Plan.Sound.{IsSound, plan_at-IsSound, plan_fixed-IsSound}
use app_elfloader.Loader.{Vm, Loaded, load_mapped, keep_filled, fill_mapped}
use app_elfloader.Loader.Range.{KeepsHeld, outside-KeepsHeld, changed-outside}
use app_elfloader.Loader.Memory.{
  Cell, IsVm, Same, SameOutside, AllFree, changed, within, free, held, stored, mapped,
}
use app_elfloader.Loader.Paint.{
  paint_all, paint_all-outside, paint_all-inside, paint_all-gap, datum_in,
}
use app_elfloader.Loader.Fill.{Beyond}
use app_elfloader.Loader.Mapped.{Post-fill_mapped}
use app_elfloader.Loader.Reserve.{IsReserved, IsPlacement, Post-reserve_range, Post-unload}

-- `x` is on the pages of the load `ph`.
abbrev pub OffPages : ℕ → ℕ → Phdr → ℕ → Type 0
OffPages page_size bias ph x =
    (x < down (ph.p_vaddr + bias) page_size) ⊎ (up (ph.p_vaddr + bias + ph.p_memsz) page_size ≤ x)

-- The image stands in memory that was free before, as its program headers say.
pub record IsLoaded (page_size : ℕ) (image : Image) (fd : ℤ) (v : ℕ → Cell) (l : Loaded)
    (v' : ℕ → Cell) : Type 0 where
  pub sound : IsSound page_size image l.plan
  pub by_mapping : l.allocated ≡ false
  pub addr_aligned : l.plan.reserve_addr % page_size ≡ 0
  pub len_aligned : l.plan.reserve_len % page_size ≡ 0
  pub was_free : AllFree v l.plan.reserve_addr l.plan.reserve_len
  pub outside : SameOutside l.plan.reserve_addr l.plan.reserve_len v v'
  -- The bytes of the file, and zeros behind them, each under the entry's protection.
  pub shows_file :
      (n i k : ℕ) (ph : Phdr)
      → get_elem? image.loads n ≡ some i
      → get_elem? image.phdrs i ≡ some ph
      → k < ph.p_filesz
      → v' (ph.p_vaddr + l.plan.bias + k) ≡ held (prot_of ph) (mapped fd (ph.p_offset + k))
  pub shows_zeros :
      (n i k : ℕ) (ph : Phdr)
      → get_elem? image.loads n ≡ some i
      → get_elem? image.phdrs i ≡ some ph
      → ph.p_filesz ≤ k
      → k < ph.p_memsz
      → v' (ph.p_vaddr + l.plan.bias + k) ≡ held (prot_of ph) (stored 0)
  -- The gaps between the loads stay reserved, without access.
  pub keeps_gaps :
      (x : ℕ)
      → within l.plan.reserve_addr l.plan.reserve_len x ≡ true
      → ((n i : ℕ) (ph : Phdr)
          → get_elem? image.loads n ≡ some i
          → get_elem? image.phdrs i ≡ some ph
          → OffPages page_size l.plan.bias ph x)
      → v' x ≡ held prot_none (stored 0)

-- Off the reservation, and so off the plan.
pub within_beyond :
    {page_size : ℕ} {image : Image} (pl : LoadPlan)
    → IsSound page_size image pl
    → (x : ℕ) → within pl.reserve_addr pl.reserve_len x ≡ false
    → (x < pl.base) ⊎ (pl.end ≤ x)
within_beyond pl sound x h = ground (arith, sound.from_reservation, sound.to_reservation)

module _ {S : Type 0} {vm : Vm S} {view : S → ℕ → Cell} (laws : IsVm vm view) (reserve : ℕ → Bool)
    {native : ℕ} (p : IsPowerOfTwo vm.page_size) {size : Option ℕ} (image : Image)
    (w : IsWellFormed native vm.page_size size image) (fd : ℤ) where
  -- The plan in the reservation.
  Safe-plan_reserved :
      (addr len : ℕ) (placement : Placement) {v v' : ℕ → Cell}
      → IsPlacement vm.page_size image addr len placement
      → IsReserved vm.page_size addr len v v'
      → Safe
          (λ pl. IsSound vm.page_size image pl × (pl.reserve_addr ≡ addr) × (pl.reserve_len ≡ len))
          (plan reserve image vm.page_size placement)
  Safe-plan_reserved addr len fixed spans r =
      let planned = plan_fixed-IsSound reserve p w in
      Safe-intro _ planned.0 λ pl e.
        let (sound, _, is_span) = planned.1 pl e in
        let same : (pl.reserve_addr, pl.reserve_addr + pl.reserve_len) ≡ (addr, addr + len) =
          ok-injective (sym is_span ∙ spans) in
        (
          sound,
          ap (λ (t : ℕ × ℕ). t.0) same,
          same_len (ap (λ (t : ℕ × ℕ). t.0) same) (ap (λ (t : ℕ × ℕ). t.1) same),
        )
    where
      same_len : {a b l m : ℕ} → a ≡ b → a + l ≡ b + m → l ≡ m
      same_len e f = omega arith
  Safe-plan_reserved addr len (at raw) (same, needs) r =
      let planned =
        plan_at-IsSound reserve p w raw len (ap (λ (t : ℕ). t % vm.page_size) same ∙ r.addr_aligned)
          needs (omega (arith, same, r.fits)) in
      Safe-intro _ planned.0
        λ pl e. let (sound, is_raw, is_len, _) = planned.1 pl e in (sound, is_raw ∙ same, is_len)

  filled-IsLoaded :
      (addr len : ℕ) (pl : LoadPlan) {v v1 v2 : ℕ → Cell}
      → IsSound vm.page_size image pl
      → pl.reserve_addr ≡ addr
      → pl.reserve_len ≡ len
      → IsReserved vm.page_size addr len v v1
      → ((x : ℕ) → v2 x ≡ paint_all fd pl.segments x (v1 x))
      → IsLoaded vm.page_size image fd v (record { plan = pl; allocated = false }) v2
  filled-IsLoaded addr len pl {v} {v1} {v2} sound is_addr is_len r painted = record {
    sound = sound;
    by_mapping = refl;
    addr_aligned = ap (λ (t : ℕ). t % vm.page_size) is_addr ∙ r.addr_aligned;
    len_aligned = ap (λ (t : ℕ). t % vm.page_size) is_len ∙ r.len_aligned;
    was_free = λ x h. r.was_free x (ap (λ b. b) (sym (same_within x)) ∙ h);
    outside = λ x h.
        let beyond = within_beyond pl sound x h in
        painted x
        ∙ paint_all-outside fd sound.arranged x (v1 x) beyond
        ∙ r.reserved x
        ∙ changed-outside addr len (λ k _. held prot_none (stored 0)) v x (sym (same_within x) ∙ h);
    shows_file = λ n i k ph nth is_ph h.
        let (seg, in_place, is_held) =
          paint_all-inside fd sound.arranged n i (ph.p_vaddr + pl.bias + k) ph
            (v1 (ph.p_vaddr + pl.bias + k)) nth is_ph (omega (arith, low (ph.p_vaddr + pl.bias)))
            (omega (
              arith,
              h,
              within_memory n i ph nth is_ph,
              high (ph.p_vaddr + pl.bias + ph.p_memsz),
            )) in
        painted _ ∙ is_held ∙ ap (λ c. held (prot_of ph) (datum_in fd c)) (in_place.0 k h);
    shows_zeros = λ n i k ph nth is_ph h h'.
        let (seg, in_place, is_held) =
          paint_all-inside fd sound.arranged n i (ph.p_vaddr + pl.bias + k) ph
            (v1 (ph.p_vaddr + pl.bias + k)) nth is_ph (omega (arith, low (ph.p_vaddr + pl.bias)))
            (omega (arith, h', high (ph.p_vaddr + pl.bias + ph.p_memsz))) in
        painted _ ∙ is_held ∙ ap (λ c. held (prot_of ph) (datum_in fd c)) (in_place.1 k h h');
    keeps_gaps = λ x h off.
        painted x
        ∙ paint_all-gap fd sound.arranged x (v1 x) off
        ∙ r.reserved x
        ∙ ap (λ b. if b then held prot_none (stored 0) else v x) (sym (same_within x) ∙ h);
  }
    where
      same_within : (x : ℕ) → within pl.reserve_addr pl.reserve_len x ≡ within addr len x
      same_within x = ap₂ (λ a l. within a l x) is_addr is_len

      low : (v : ℕ) → down v vm.page_size ≤ v
      low = down-le vm.page_size (IsPowerOfTwo-pos p)

      high : (v : ℕ) → v ≤ up v vm.page_size
      high = le-up vm.page_size (IsPowerOfTwo-pos p)

      within_memory :
          (n i : ℕ) (ph : Phdr)
          → get_elem? image.loads n ≡ some i
          → get_elem? image.phdrs i ≡ some ph
          → ph.p_filesz ≤ ph.p_memsz
      within_memory n i ph nth is_ph =
          let l =
            All-get_elem? (IsLoad image.phdrs vm.page_size size) image.loads n (loads-IsLoad p w)
              nth in
          subst (λ (e : Phdr). e.p_filesz ≤ e.p_memsz)
            (some-injective l.entry ph (sym l.at ∙ is_ph)) l.valid.file_within_memory

  -- On an address space that keeps the laws, with pages of a power of two, `load_mapped` on a well-formed
  -- image does not panic. When it succeeds, the reservation was free before, nothing outside it changed,
  -- every file byte of every load stands where the program header puts it, biased, the rest of each load
  -- is zeros, each byte under the protection of its program header, and the gaps stay reserved without
  -- access. When it fails, no byte that was held before has changed.
  pub load_mapped-IsLoaded :
      (s : S)
      → Post
          (λ l s'. IsLoaded vm.page_size image fd (view s) l (view s'))
          (λ e s'. KeepsHeld (view s) (view s'))
          (load_mapped vm reserve image fd vm.page_size s)
  unfolding load_mapped keep_filled
  load_mapped-IsLoaded s =
      Post-pure_eq _ _ s (Safe-va_span p w)
        (λ (lo, hi) spans span.
          Post-pure_eq _ _ s (Safe-reservation_len p w)
            (λ need needs whole.
              Post-bind _ _ s (Post-reserve_range laws p image w s lo hi need spans needs whole)
                (λ placement s1 (addr, len, is_placement, r).
                  Post-pure _ _ s1 (Safe-plan_reserved addr len placement is_placement r)
                    (λ pl (sound, is_addr, is_len). filled s s1 addr len pl sound is_addr is_len r)
                    (λ e. kept s s1 addr len r))
                (λ e s1 same. same))
            (λ e x h. refl))
        (λ e x h. refl)
    where
      kept :
          (s s1 : S) (addr len : ℕ)
          → IsReserved vm.page_size addr len (view s) (view s1)
          → KeepsHeld (view s) (view s1)
      kept s s1 addr len r = outside-KeepsHeld addr len r.was_free λ x h.
          r.reserved x ∙ changed-outside addr len (λ k _. held prot_none (stored 0)) (view s) x h

      untouched :
          (s s1 s2 s3 : S) (addr len : ℕ) (pl : LoadPlan)
          → IsSound vm.page_size image pl
          → pl.reserve_addr ≡ addr
          → pl.reserve_len ≡ len
          → IsReserved vm.page_size addr len (view s) (view s1)
          → Beyond pl.base pl.end (view s1) (view s2)
          → Same (changed pl.reserve_addr pl.reserve_len (λ k _. free) (view s2)) (view s3)
            ⊎ Same (view s2) (view s3)
          → KeepsHeld (view s) (view s3)
      untouched s s1 s2 s3 addr len pl sound is_addr is_len r same released =
          outside-KeepsHeld addr len r.was_free λ x h.
            let off : within pl.reserve_addr pl.reserve_len x ≡ false =
              ap₂ (λ a l. within a l x) is_addr is_len ∙ h in
            elim released [
              | inl freed ↦ freed x ∙ changed-outside _ _ (λ k _. free) (view s2) x off
              | inr left ↦ left x
            ]
            ∙ same x (within_beyond pl sound x off)
            ∙ r.reserved x
            ∙ changed-outside addr len (λ k _. held prot_none (stored 0)) (view s) x h

      filled :
          (s s1 : S) (addr len : ℕ) (pl : LoadPlan)
          → IsSound vm.page_size image pl
          → pl.reserve_addr ≡ addr
          → pl.reserve_len ≡ len
          → IsReserved vm.page_size addr len (view s) (view s1)
          → Post
              (λ l s'. IsLoaded vm.page_size image fd (view s) l (view s'))
              (λ e s'. KeepsHeld (view s) (view s'))
              (keep_filled vm
                (record { plan = pl; allocated = false })
                (fill_mapped vm image fd pl)
                s1)
      filled s s1 addr len pl sound is_addr is_len r =
          Post-bind _ _ s1
            (Post-or_else _ _ s1 (Post-fill_mapped laws p image fd pl s1 sound)
              (λ _ s2 painted. painted)
              (λ e s2 same.
                Post-map
                  (Post-unload laws (record { plan = pl; allocated = false }) s2
                    (ap (λ (t : ℕ). t % vm.page_size) is_addr ∙ r.addr_aligned)
                    (ap (λ (t : ℕ). t % vm.page_size) is_len ∙ r.len_aligned))
                  (λ _ s3 released.
                    untouched s s1 s2 s3 addr len pl sound is_addr is_len r same released)
                  (λ e s3 never. absurd never)))
            (λ _ s2 painted.
              Post-done _ s2 (filled-IsLoaded addr len pl sound is_addr is_len r painted))
            (λ e s2 same. same)
