-- ===== src/Loader.antt =====
-- rust/src/loader.rs: executing a plan against an address space. The log messages are left out, with
-- the name that only they use, but not what is computed for them. `debug_assert_eq!` is not compiled
-- into the program (rust/Cargo.toml, the release profile).
pub mod Calls
pub mod Memory
pub mod Range
pub mod Paint
pub mod Fill
pub mod Segments
pub mod Mapped
pub mod Reserve
pub mod Sound
pub mod Copy
pub mod CopiedCell
pub mod Copied
pub mod Block
pub mod Release
use app_elfloader.Prelude.{
  ℕ, zero, suc, ◌+◌, ◌-◌, ◌*◌, min, bit_and, bit_or, Bool, true, false, not, ◌&&◌, Option, none,
  some, List, [], ◌∷◌, length, ltb, leb, ◌==◌, if◌then◌else◌,
}
use app_elfloader.Prelude.Int.{ℤ}
use app_elfloader.Outcome.{Outcome, ok, err, panic, index, ok_or, reject_if}
use app_elfloader.Action.{Action, lift, or_else, ignore, modify, ◌>>=◌, ◌>>◌}
use app_elfloader.Word.{add64, sub64}
use app_elfloader.Err.{Error, enomem, enotsup}
use app_elfloader.Elf.Header.{Phdr, is_exec, et_dyn}
use app_elfloader.Elf.Source.{ImageSource}
use app_elfloader.Elf.Align.{align_up}
use app_elfloader.Elf.Image.{Image}
use app_elfloader.Elf.Span.{va_span}
use app_elfloader.Layout.Plan.{
  FileMap, AnonMap, SegmentPlan, LoadPlan, Placement, fixed, at, plan, range, seg_align,
  reservation_len, prot_none, prot_read, prot_write, prot_exec,
}
use app_elfloader.Layout.View.{exec_ranges}

pub data Where : Type 0 where
  anywhere : Where
  hint : ℕ → Where
  exact : ℕ → Where

pub data MapSrc : Type 0 where
  anon : MapSrc
  file : ℤ → ℕ → MapSrc

-- The trait `Vm`, with the system that its calls change. The source's name for `zero_fill` is `zero`.
pub record Vm (S : Type 0) : Type 0 where
  pub page_size : ℕ
  pub can_map_files : Bool
  pub map : Where → ℕ → ℕ → MapSrc → Action S ℕ
  pub unmap : ℕ → ℕ → Action S (Unit {0})
  pub protect : ℕ → ℕ → ℕ → Action S (Unit {0})
  pub write : ℕ → List ℕ → Action S (Unit {0})
  pub zero_fill : ℕ → ℕ → Action S (Unit {0})
  pub icache_sync : ℕ → ℕ → S → S
  pub alloc_aligned : ℕ → ℕ → Action S ℕ
  pub free_aligned : ℕ → ℕ → S → S

pub record Loaded : Type 0 where
  pub plan : LoadPlan
  pub allocated : Bool

abbrev pub copy_chunk : ℕ
copy_chunk = 64 * 1024

module _ {S : Type 0} (vm : Vm S) where
  -- An error of `unmap` is logged only.
  unfoldable pub unload : Loaded → Action S (Unit {0})
  unload l =
      if l.allocated
      then modify (vm.free_aligned l.plan.reserve_addr l.plan.reserve_len)
      else ignore (vm.unmap l.plan.reserve_addr l.plan.reserve_len)

  unfoldable pub map_file : ℤ → Bool → ℕ → Option FileMap → Action S (Unit {0})
  map_file fd write_window prot none = lift (ok tt)
  map_file fd write_window prot (some fm) = do
    got ←
        vm.map (exact fm.addr) fm.len (if write_window then bit_or prot prot_write else prot)
          (file fd fm.off)
    lift (ok tt)

  unfoldable pub zero_tail : Option AnonMap → Action S (Unit {0})
  zero_tail none = lift (ok tt)
  zero_tail (some z) = vm.zero_fill z.addr z.len

  unfoldable pub map_anon : ℕ → Option AnonMap → Action S (Unit {0})
  map_anon prot none = lift (ok tt)
  map_anon prot (some a) = do got ← vm.map (exact a.addr) a.len prot anon; lift (ok tt)

  unfoldable pub narrow : SegmentPlan → Action S (Unit {0})
  narrow seg =
      if seg.needs_write_window
      then (do
        (start, end) ← lift (range seg)
        len ← lift (sub64 end start)
        vm.protect start len seg.prot)
      else lift (ok tt)

  -- One round of the first loop of `fill_mapped`; the log message reads the entry and the range.
  unfoldable pub fill_segment : Image → ℤ → SegmentPlan → Action S (Unit {0})
  fill_segment image fd seg = do
    ph ← lift (index image.phdrs seg.idx)
    shown ← lift (range seg)
    map_file fd seg.needs_write_window seg.prot seg.file
    zero_tail seg.zero_fill
    map_anon seg.prot seg.anon
    narrow seg

  unfoldable pub fill_segments : Image → ℤ → List SegmentPlan → Action S (Unit {0})
  fill_segments image fd [] = lift (ok tt)
  fill_segments image fd (seg ∷ segs) = do fill_segment image fd seg; fill_segments image fd segs

  unfoldable pub sync_tail : Bool → Option AnonMap → Action S (Unit {0})
  sync_tail exec none = lift (ok tt)
  sync_tail exec (some z) = if exec then modify (vm.icache_sync z.addr z.len) else lift (ok tt)

  unfoldable pub sync_tails : Image → List SegmentPlan → Action S (Unit {0})
  sync_tails image [] = lift (ok tt)
  sync_tails image (seg ∷ segs) = do
    ph ← lift (index image.phdrs seg.idx)
    sync_tail (is_exec ph) seg.zero_fill
    sync_tails image segs

  unfoldable pub fill_mapped : Image → ℤ → LoadPlan → Action S (Unit {0})
  fill_mapped image fd pl = do fill_segments image fd pl.segments; sync_tails image pl.segments

  -- The address of a non-PIE image is asked for as a hint; elsewhere is no use.
  unfoldable pub keep_or_refuse : ℕ → ℕ → ℕ → Action S Placement
  keep_or_refuse va_lo span got =
      if got == va_lo then lift (ok fixed) else (do ignore (vm.unmap got span); lift (err enomem))

  unfoldable pub reserve_range : Image → ℕ → ℕ → ℕ → Action S Placement
  reserve_range image page va_lo need =
      if image.ehdr.e_type == et_dyn
      then (do raw ← vm.map anywhere need prot_none anon; lift (ok (at raw)))
      else (do
        (lo, hi) ← lift (va_span image page)
        span ← lift (sub64 hi va_lo)
        got ← vm.map (hint va_lo) span prot_none anon
        keep_or_refuse va_lo span got)

  -- `if let Err(e) = fill { loaded.unload(vm); return Err(e); } Ok(loaded)`
  unfoldable pub keep_filled : Loaded → Action S (Unit {0}) → Action S Loaded
  keep_filled loaded fill = do or_else fill (unload loaded); lift (ok loaded)

  unfoldable pub load_mapped : (ℕ → Bool) → Image → ℤ → ℕ → Action S Loaded
  load_mapped reserve image fd page = do
    (va_lo, va_hi) ← lift (va_span image page)
    need ← lift (reservation_len image page)
    placement ← reserve_range image page va_lo need
    pl ← lift (plan reserve image page placement)
    keep_filled (record { plan = pl; allocated = false }) (fill_mapped image fd pl)

  -- The loop over the file's chunks. Out of fuel is told apart as a panic; each round copies at least
  -- one byte, so the file size is fuel enough.
  unfoldable pub copy_chunks : ImageSource → ℕ → ℕ → ℕ → ℕ → ℕ → Action S (Unit {0})
  copy_chunks src offset vaddr filesz zero done =
      if ltb done filesz then lift panic else lift (ok tt)
  copy_chunks src offset vaddr filesz (suc fuel) done =
      if ltb done filesz
      then (do
        left ← lift (sub64 filesz done)
        from ← lift (add64 offset done)
        buf ← lift (src.read_exact_at from (min copy_chunk left))
        to ← lift (add64 vaddr done)
        vm.write to buf
        next ← lift (add64 done (min copy_chunk left))
        copy_chunks src offset vaddr filesz fuel next)
      else lift (ok tt)

  unfoldable pub copy_segment : Image → ImageSource → ℕ → SegmentPlan → Action S (Unit {0})
  copy_segment image src bias seg = do
    ph ← lift (index image.phdrs seg.idx)
    vaddr ← lift (add64 ph.p_vaddr bias)
    copy_chunks src ph.p_offset vaddr ph.p_filesz ph.p_filesz 0
    end ← lift (add64 vaddr ph.p_memsz)
    rounded ← lift (align_up end vm.page_size)
    mem_end ← lift (ok_or rounded enomem)
    zstart ← lift (add64 vaddr ph.p_filesz)
    (if ltb zstart mem_end
        then (do len ← lift (sub64 mem_end zstart); vm.zero_fill zstart len)
        else lift (ok tt))

  unfoldable pub copy_segments : Image → ImageSource → ℕ → List SegmentPlan → Action S (Unit {0})
  copy_segments image src bias [] = lift (ok tt)
  copy_segments image src bias (seg ∷ segs) = do
    copy_segment image src bias seg
    copy_segments image src bias segs

  unfoldable pub sync_ranges : List (ℕ × ℕ) → Action S (Unit {0})
  sync_ranges [] = lift (ok tt)
  sync_ranges ((addr, len) ∷ rest) = do modify (vm.icache_sync addr len); sync_ranges rest

  -- An error of `protect` is logged only.
  unfoldable pub protect_segments : List SegmentPlan → Action S (Unit {0})
  protect_segments [] = lift (ok tt)
  protect_segments (seg ∷ segs) = do
    (start, end) ← lift (range seg)
    len ← lift (sub64 end start)
    ignore (vm.protect start len seg.prot)
    protect_segments segs

  unfoldable pub fill_copied : (ℕ → Bool) → Image → ImageSource → LoadPlan → Action S (Unit {0})
  fill_copied reserve image src pl = do
    lift (reject_if (not (reserve copy_chunk)) enomem)
    copy_segments image src pl.bias pl.segments
    ranges ← lift (exec_ranges pl image)
    sync_ranges ranges
    protect_segments pl.segments

  unfoldable pub load_copied : (ℕ → Bool) → Image → ImageSource → ℕ → Action S Loaded
  load_copied reserve image src page = do
    lift (reject_if (not (image.ehdr.e_type == et_dyn)) enotsup)
    need ← lift (reservation_len image page)
    align ← lift (seg_align image page)
    raw ← vm.alloc_aligned align need
    pl ← lift (plan reserve image page (at raw))
    keep_filled (record { plan = pl; allocated = true }) (fill_copied reserve image src pl)

  unfoldable pub load_from : (ℕ → Bool) → Image → ImageSource → Option ℤ → Action S Loaded
  load_from reserve image src none = load_copied reserve image src vm.page_size
  load_from reserve image src (some fd) =
      if vm.can_map_files
      then load_mapped reserve image fd vm.page_size
      else load_copied reserve image src vm.page_size

-- `any` over the segments.
unfoldable pub holds_entry : ℕ → List SegmentPlan → Outcome Error Bool
holds_entry entry [] = ok false
holds_entry entry (seg ∷ segs) = elim (range {E = Error} seg) [
  | ok r ↦
      if not (bit_and seg.prot prot_exec == 0) && leb r.0 entry && ltb entry r.1
      then ok true
      else holds_entry entry segs
  | err e ↦ err e
  | panic ↦ panic
]

unfoldable pub entry_is_executable : Image → LoadPlan → Outcome Error Bool
unfolding holds_entry
entry_is_executable image pl = elim (holds_entry pl.entry pl.segments) [
  | ok found ↦ ok (found && ltb 0 (length image.loads))
  | err e ↦ err e
  | panic ↦ panic
]

unfoldable pub check_stack_request : Image → Outcome Error (Unit {0})
check_stack_request image = reject_if image.exec_stack enotsup

abbrev pub rw_prot : ℕ
rw_prot = bit_or prot_read prot_write
