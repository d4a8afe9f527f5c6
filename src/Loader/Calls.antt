-- ===== src/Loader/Calls.antt =====
-- What the loader asks of the address space: its calls, recorded in order.
use app_elfloader.Prelude.{
  ℕ, ◌+◌, ◌-◌, ◌≤◌, ◌<◌, ◌≡◌, refl, Bool, Option, none, some, List, [], ◌∷◌, All, arith, ap,
}
use app_elfloader.Prelude.Int.{ℤ}
use app_elfloader.Outcome.{ok, Safe-ok}
use app_elfloader.Err.{Error}
use app_elfloader.Action.{Action, modify}
use app_elfloader.Action.Keeps.{Keeps, Keeps-lift, Keeps-if, Keeps-bind, Keeps-pure}
use app_elfloader.Word.{u64_end, sub64, sub64-eq-ok}
use app_elfloader.Elf.Header.{Phdr}
use app_elfloader.Elf.Image.{Image}
use app_elfloader.Layout.Plan.{FileMap, AnonMap, SegmentPlan, LoadPlan, range}
use app_elfloader.Layout.Plan.Shape.{
  IsShape, file-PagesIn, anon-PagesIn, zero_fill-range, Safe-range_window,
}
use app_elfloader.Layout.Plan.Arrange.{Arranged, Arranged-le, all_placed, followed}
use app_elfloader.Layout.Plan.Sound.{IsSound}
use app_elfloader.Loader.{
  Vm, Where, MapSrc, exact, map_file, zero_tail, map_anon, narrow, fill_segment, fill_segments,
  sync_tail, sync_tails, fill_mapped,
}

pub data Call : Type 0 where
  maps : Where → ℕ → ℕ → MapSrc → Call
  unmaps : ℕ → ℕ → Call
  protects : ℕ → ℕ → ℕ → Call
  writes : ℕ → List ℕ → Call
  zeroes : ℕ → ℕ → Call
  syncs : ℕ → ℕ → Call
  allocates : ℕ → ℕ → Call
  frees : ℕ → ℕ → Call

-- The call, recorded before it is made.
abbrev pub recorded {ℓ} : {S : Type 0} {A : Type ℓ} → Call → Action S A → Action (S × List Call) A
recorded c m (s, calls) = let (o, s') = m s in (o, (s', c ∷ calls))

-- An address space that also records the calls.
abbrev pub traced : {S : Type 0} → Vm S → Vm (S × List Call)
traced vm = record {
  page_size = vm.page_size;
  can_map_files = vm.can_map_files;
  map = λ at len prot src. recorded (maps at len prot src) (vm.map at len prot src);
  unmap = λ addr len. recorded (unmaps addr len) (vm.unmap addr len);
  protect = λ addr len prot. recorded (protects addr len prot) (vm.protect addr len prot);
  write = λ addr bytes. recorded (writes addr bytes) (vm.write addr bytes);
  zero_fill = λ addr len. recorded (zeroes addr len) (vm.zero_fill addr len);
  icache_sync = λ addr len (s, calls). (vm.icache_sync addr len s, syncs addr len ∷ calls);
  alloc_aligned = λ align len. recorded (allocates align len) (vm.alloc_aligned align len);
  free_aligned = λ addr len (s, calls). (vm.free_aligned addr len s, frees addr len ∷ calls);
}

-- `[addr, addr + len)` is part of `[lo, hi)`.
abbrev pub Within : ℕ → ℕ → ℕ → ℕ → Type 0
Within lo hi addr len = (lo ≤ addr) × (addr + len ≤ hi)

-- The call changes nothing outside `[lo, hi)`, and gives none of it back.
abbrev pub StaysIn : ℕ → ℕ → Call → Type 0
StaysIn lo hi (maps (exact addr) len prot src) = Within lo hi addr len
StaysIn lo hi (maps at len prot src) = ⊥
StaysIn lo hi (unmaps addr len) = ⊥
StaysIn lo hi (protects addr len prot) = Within lo hi addr len
StaysIn lo hi (writes addr bytes) = ⊥
StaysIn lo hi (zeroes addr len) = Within lo hi addr len
StaysIn lo hi (syncs addr len) = Within lo hi addr len
StaysIn lo hi (allocates align len) = ⊥
StaysIn lo hi (frees addr len) = ⊥

module _ {S : Type 0} (vm : Vm S) (lo hi : ℕ) where
  abbrev AllStay : S × List Call → Type 0
  AllStay s = All (StaysIn lo hi) s.1

  abbrev Stays {κ} : {A : Type κ} → Action (S × List Call) A → Type 0
  Stays m = Keeps AllStay m

  map_file-Stays :
      (fd : ℤ) (window : Bool) (prot : ℕ) (file : Option FileMap)
      → ((f : FileMap) → file ≡ some f → Within lo hi f.addr f.len)
      → Stays (map_file (traced vm) fd window prot file)
  unfolding map_file
  map_file-Stays fd window prot none h = Keeps-lift AllStay _
  map_file-Stays fd window prot (some f) h =
      Keeps-bind AllStay _ _ (λ s stay. (h f refl, stay)) (λ got. Keeps-lift AllStay _)

  zero_tail-Stays :
      (zero_part : Option AnonMap)
      → ((z : AnonMap) → zero_part ≡ some z → Within lo hi z.addr z.len)
      → Stays (zero_tail (traced vm) zero_part)
  unfolding zero_tail
  zero_tail-Stays none h = Keeps-lift AllStay _
  zero_tail-Stays (some z) h = λ s stay. (h z refl, stay)

  map_anon-Stays :
      (prot : ℕ) (anon : Option AnonMap)
      → ((a : AnonMap) → anon ≡ some a → Within lo hi a.addr a.len)
      → Stays (map_anon (traced vm) prot anon)
  unfolding map_anon
  map_anon-Stays prot none h = Keeps-lift AllStay _
  map_anon-Stays prot (some a) h =
      Keeps-bind AllStay _ _ (λ s stay. (h a refl, stay)) (λ got. Keeps-lift AllStay _)

  sync_tail-Stays :
      (exec : Bool) (zero_part : Option AnonMap)
      → ((z : AnonMap) → zero_part ≡ some z → Within lo hi z.addr z.len)
      → Stays (sync_tail (traced vm) exec zero_part)
  unfolding sync_tail modify
  sync_tail-Stays exec none h = Keeps-lift AllStay _
  sync_tail-Stays exec (some z) h =
      Keeps-if AllStay exec _ _ (λ _ s stay. (h z refl, stay)) (λ _. Keeps-lift AllStay _)

  -- The parts of a segment whose pages lie in the range.
  module _ {page_size start stop : ℕ} {seg : SegmentPlan} (shape : IsShape page_size start stop seg)
      (pos : 0 < page_size) (low : lo ≤ start) (high : stop ≤ hi) where
    file-Within : (f : FileMap) → seg.file ≡ some f → Within lo hi f.addr f.len
    file-Within f e =
        let (_, _, from, to) = file-PagesIn shape pos f e in (omega arith, omega arith)

    zero_fill-Within : (z : AnonMap) → seg.zero_fill ≡ some z → Within lo hi z.addr z.len
    zero_fill-Within z e =
        let (from, to) = zero_fill-range shape pos z e in (omega arith, omega arith)

    anon-Within : (a : AnonMap) → seg.anon ≡ some a → Within lo hi a.addr a.len
    anon-Within a e =
        let (_, _, from, to) = anon-PagesIn shape pos a e in (omega arith, omega arith)

    narrow-Stays : stop < u64_end → Stays (narrow (traced vm) seg)
    unfolding narrow
    narrow-Stays fits =
        Keeps-if AllStay seg.needs_write_window _ _
          (λ window. Keeps-pure AllStay (range seg) _ λ r is_range.
            let there = Safe-ok (Safe-range_window seg shape fits window) is_range in
            Keeps-pure AllStay (sub64 r.1 r.0) _
              λ len is_len s stay. (protects_within r len there is_len, stay))
          (λ _. Keeps-lift AllStay _)
      where
        protects_within :
            (r : ℕ × ℕ) (len : ℕ)
            → r ≡ (start, stop)
            → sub64 {E = Error} r.1 r.0 ≡ ok len
            → Within lo hi r.0 len
        protects_within (a, b) len e is_len =
            let first : a ≡ start = ap (λ (x : ℕ × ℕ). x.0) e in
            let last : b ≡ stop = ap (λ (x : ℕ × ℕ). x.1) e in
            let size : len ≡ b - a = sub64-eq-ok b a is_len in
            (omega arith, omega (arith, shape.start_le, shape.mid_le))

    fill_segment-Stays :
        (image : Image) (fd : ℤ) → stop < u64_end → Stays (fill_segment (traced vm) image fd seg)
    unfolding fill_segment
    fill_segment-Stays image fd fits = Keeps-pure AllStay _ _ λ ph _.
        Keeps-pure AllStay _ _ λ shown _.
          Keeps-bind AllStay _ _ (map_file-Stays fd _ _ seg.file file-Within) λ _.
            Keeps-bind AllStay _ _ (zero_tail-Stays seg.zero_fill zero_fill-Within) λ _.
              Keeps-bind AllStay _ _ (map_anon-Stays seg.prot seg.anon anon-Within)
                λ _. narrow-Stays fits

  module _ {phdrs : List Phdr} {page_size bias end : ℕ} (pos : 0 < page_size) (image : Image)
      (fits : end < u64_end) (high : end ≤ hi) where
    fill_segments-Stays :
        (fd : ℤ) {from : ℕ} {is : List ℕ} {segs : List SegmentPlan}
        → Arranged phdrs page_size bias end from is segs
        → lo ≤ from
        → Stays (fill_segments (traced vm) image fd segs)
    unfolding fill_segments
    fill_segments-Stays fd (all_placed h) low = Keeps-lift AllStay _
    fill_segments-Stays fd (followed s h rest) low =
        let below = Arranged-le rest in
        Keeps-bind AllStay _ _
          (fill_segment-Stays s.shape pos (omega arith) (omega arith) image fd (omega arith))
          λ _. fill_segments-Stays fd rest (omega (arith, s.shape.start_le, s.shape.mid_le))

    sync_tails-Stays :
        {from : ℕ} {is : List ℕ} {segs : List SegmentPlan}
        → Arranged phdrs page_size bias end from is segs
        → lo ≤ from
        → Stays (sync_tails (traced vm) image segs)
    unfolding sync_tails
    sync_tails-Stays (all_placed h) low = Keeps-lift AllStay _
    sync_tails-Stays (followed {seg = seg} s h rest) low =
        let below = Arranged-le rest in
        Keeps-pure AllStay _ _ λ ph _.
          Keeps-bind AllStay _ _
            (sync_tail-Stays _ seg.zero_fill
              (zero_fill-Within s.shape pos (omega arith) (omega arith)))
            λ _. sync_tails-Stays rest (omega (arith, s.shape.start_le, s.shape.mid_le))

-- For a sound plan with a page size that is not 0, every call that `fill_mapped` makes of the address space, whether it ends well or
-- not, is a mapping at an exact address, a clearing, a protection or an instruction-cache maintenance
-- inside the reservation: it never gives back a part of the reservation, nor touches what lies outside.
pub fill_mapped-StaysIn :
    {S : Type 0} (vm : Vm S) {page_size : ℕ} (image : Image) (fd : ℤ) (pl : LoadPlan) (s : S)
    → 0 < page_size
    → IsSound page_size image pl
    → All
        (StaysIn pl.reserve_addr (pl.reserve_addr + pl.reserve_len))
        (fill_mapped (traced vm) image fd pl (s, [])).1.1
unfolding fill_mapped
fill_mapped-StaysIn vm image fd pl s pos sound =
    Keeps-bind (AllStay vm lo hi) _ _
      (fill_segments-Stays vm lo hi pos image (omega (arith, sound.to_reservation, sound.no_wrap))
        sound.to_reservation fd sound.arranged sound.from_reservation)
      (λ _.
        sync_tails-Stays vm lo hi pos image (omega (arith, sound.to_reservation, sound.no_wrap))
          sound.to_reservation sound.arranged sound.from_reservation)
      (s, []) tt
  where
    lo : ℕ
    lo = pl.reserve_addr

    hi : ℕ
    hi = pl.reserve_addr + pl.reserve_len
