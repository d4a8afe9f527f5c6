-- ===== src/Program/Took.antt =====
-- What `loader::load` leaves, by either path, and its release.
use app_elfloader.Prelude.{
  ℕ, ◌%◌, ◌<◌, ◌≡◌, ◌≢◌, inl, inr, refl, Bool, true, false, not, ◌&&◌, Option, none, some, List,
  length, bit_and, ltb, leb, ◌==◌, if◌then◌else◌, arith, Bool-cases, sym, ◌∙◌,
}
use mathlib.Core.Bool.{false≢true}
use app_elfloader.Prelude.Int.{ℤ}
use app_elfloader.Outcome.{Outcome, ok, err, panic, Safe, returns, fails, Safe-if}
use app_elfloader.Err.{Error}
use app_elfloader.Action.{Post, Post-map, Post-if}
use app_elfloader.Word.{u64_end}
use app_elfloader.Word.Bits.{IsPowerOfTwo}
use app_elfloader.Elf.Header.{Phdr}
use app_elfloader.Elf.Source.{ImageSource, IsSource}
use app_elfloader.Elf.Image.{Image}
use app_elfloader.Elf.Image.Parse.{IsWellFormed}
use app_elfloader.Layout.Plan.{SegmentPlan, LoadPlan, prot_exec, range}
use app_elfloader.Layout.Plan.Shape.{Safe-range}
use app_elfloader.Layout.Plan.Arrange.{Arranged, Arranged-le, all_placed, followed}
use app_elfloader.Layout.Plan.Sound.{IsSound}
use app_elfloader.Loader.{
  Vm, Loaded, unload, load_from, load_copied, entry_is_executable, holds_entry,
}
use app_elfloader.Loader.Range.{KeepsHeld, outside-KeepsHeld, changed-outside}
use app_elfloader.Loader.Memory.{Cell, IsVm, Same, SameOutside, AllFree, within, free}
use app_elfloader.Loader.Copy.{IsFile}
use app_elfloader.Loader.Sound.{load_mapped-IsLoaded}
use app_elfloader.Loader.Block.{load_copied-IsLoadedBlock}
use app_elfloader.Loader.Reserve.{Post-unload}
use app_elfloader.Program.{Opened, Opener}

-- An opener that leaves memory alone, and whose sources read one file.
pub record IsOpener {S : Type 0} (opener : Opener S) (view : S → ℕ → Cell) : Type 0 where
  pub opens :
      (s : S) (path : List ℕ)
      → Post
          (λ o s'.
            IsSource o.src × ((contents : ℕ → ℕ) × IsFile o.src contents) × Same (view s) (view s'))
          (λ e s'. Same (view s) (view s'))
          (opener.open_path path s)
  pub closes : (s : S) (o : Opened) → Same (view s) (view (opener.close o s))

-- The image took a range that was free.
pub record Took (page_size : ℕ) (image : Image) (v : ℕ → Cell) (l : Loaded) (v' : ℕ → Cell)
    : Type 0 where
  pub sound : IsSound page_size image l.plan
  pub addr_aligned : l.plan.reserve_addr % page_size ≡ 0
  pub len_aligned : l.plan.reserve_len % page_size ≡ 0
  pub was_free : AllFree v l.plan.reserve_addr l.plan.reserve_len
  pub outside : SameOutside l.plan.reserve_addr l.plan.reserve_len v v'

module _ {phdrs : List Phdr} {page_size bias end : ℕ} (fits : end < u64_end) where
  Safe-holds_entry :
      (place : ℕ) {from : ℕ} {is : List ℕ} {segs : List SegmentPlan}
      → Arranged phdrs page_size bias end from is segs
      → Safe (λ _. Unit {0}) (holds_entry place segs)
  unfolding holds_entry
  Safe-holds_entry place (all_placed h) = returns tt
  Safe-holds_entry place (followed {seg = seg} {segs} l h rest) =
      tested (Safe-holds_entry place rest) (range seg)
        (Safe-range seg l.shape (omega (arith, Arranged-le rest)))
    where
      tested :
          Safe {E = Error} (λ _. Unit {0}) (holds_entry place segs)
          → (o : Outcome Error (ℕ × ℕ)) {P : ℕ × ℕ → Type 0} → Safe P o
          → Safe
              (λ _. Unit {0})
              (elim o [
                | ok r ↦
                    if not (bit_and seg.prot prot_exec == 0) && leb r.0 place && ltb place r.1
                    then ok true
                    else holds_entry place segs
                | err e ↦ err e
                | panic ↦ panic
              ])
      tested later o (returns {a = r} q) =
          Safe-if (not (bit_and seg.prot prot_exec == 0) && leb r.0 place && ltb place r.1) _ _
            (λ _. returns tt) (λ _. later)
      tested later o fails = fails

pub Safe-entry_is_executable :
    {page_size : ℕ} (image : Image) (pl : LoadPlan)
    → IsSound page_size image pl
    → Safe (λ _. Unit {0}) (entry_is_executable image pl)
unfolding entry_is_executable
Safe-entry_is_executable image pl sound =
    tested (holds_entry pl.entry pl.segments) (
      Safe-holds_entry (omega (arith, sound.to_reservation, sound.no_wrap)) pl.entry sound.arranged)
  where
    tested :
        (o : Outcome Error Bool)
        → Safe (λ _. Unit {0}) o
        → Safe
            (λ _. Unit {0})
            (elim o [
              | ok found ↦ ok (found && ltb 0 (length image.loads))
              | err e ↦ err e
              | panic ↦ panic
            ])
    tested o (returns q) = returns tt
    tested o fails = fails

pub KeepsHeld-trans : {v v1 v2 : ℕ → Cell} → KeepsHeld v v1 → KeepsHeld v1 v2 → KeepsHeld v v2
KeepsHeld-trans first second x kept = second x (λ e. kept (sym (first x kept) ∙ e)) ∙ first x kept

Same-KeepsHeld : {v v1 : ℕ → Cell} → Same v v1 → KeepsHeld v v1
Same-KeepsHeld same x kept = same x

module _ {S : Type 0} {vm : Vm S} {view : S → ℕ → Cell} (laws : IsVm vm view) (reserve : ℕ → Bool)
    (native : ℕ) (p : IsPowerOfTwo vm.page_size) where
  pub Post-load_from :
      (image : Image) {size : Option ℕ} {src : ImageSource} {contents : ℕ → ℕ} (fd : Option ℤ)
      (s : S)
      → IsWellFormed native vm.page_size size image
      → IsFile src contents
      → Post
          (λ l s'. Took vm.page_size image (view s) l (view s'))
          (λ e s'. KeepsHeld (view s) (view s'))
          (load_from vm reserve image src fd s)
  unfolding load_from
  Post-load_from image {src = src} {contents} fd s w file = from fd
    where
      copied :
          Post
            (λ l s'. Took vm.page_size image (view s) l (view s'))
            (λ e s'. KeepsHeld (view s) (view s'))
            (load_copied vm reserve image src vm.page_size s)
      copied =
          Post-map (load_copied-IsLoadedBlock laws reserve p image w file s)
            (λ l s' b. record {
              sound = b.sound;
              addr_aligned = b.addr_aligned;
              len_aligned = b.len_aligned;
              was_free = b.was_free;
              outside = b.outside;
            })
            (λ e s' kept. kept)

      from :
          (fd : Option ℤ)
          → Post
              (λ l s'. Took vm.page_size image (view s) l (view s'))
              (λ e s'. KeepsHeld (view s) (view s'))
              (load_from vm reserve image src fd s)
      from none = copied
      from (some fd) =
          Post-if vm.can_map_files _ _ s
            (λ _.
              Post-map (load_mapped-IsLoaded laws reserve p image w fd s)
                (λ l s' b. record {
                  sound = b.sound;
                  addr_aligned = b.addr_aligned;
                  len_aligned = b.len_aligned;
                  was_free = b.was_free;
                  outside = b.outside;
                })
                (λ e s' kept. kept))
            (λ _. copied)

pub negated_true : (b : Bool) → not b ≡ false → b ≡ true
negated_true true h = refl
negated_true false h = absurd (false≢true (sym h))

-- Releasing an image that took free memory leaves what was held before it.
pub Post-unload-Took :
    {S : Type 0} {vm : Vm S} {view : S → ℕ → Cell} (laws : IsVm vm view) (image : Image)
    (v v1 : ℕ → Cell) (l : Loaded) (s : S)
    → Took vm.page_size image v l v1
    → KeepsHeld v1 (view s)
    → Post (λ _ s'. KeepsHeld v (view s')) (λ e s'. ⊥) (unload vm l s)
Post-unload-Took {view = view} laws image v v1 l s took kept =
    Post-map (Post-unload laws l s took.addr_aligned took.len_aligned)
      (λ _ s' released.
        let left : KeepsHeld v (view s) =
          KeepsHeld-trans (outside-KeepsHeld _ _ took.was_free took.outside) kept in
        elim released [
          | inl freed ↦ λ x is_held.
              freed x
              ∙ changed-outside _ _ (λ k _. free) (view s) x (not_inside x is_held)
              ∙ left x is_held
          | inr same ↦ λ x is_held. same x ∙ left x is_held
        ])
      (λ e s' never. never)
  where
    not_inside : (x : ℕ) → v x ≢ free → within l.plan.reserve_addr l.plan.reserve_len x ≡ false
    not_inside x is_held = elim (Bool-cases (within l.plan.reserve_addr l.plan.reserve_len x)) [
      | inl t ↦ absurd (is_held (took.was_free x t))
      | inr f ↦ f
    ]
