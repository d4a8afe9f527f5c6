-- ===== src/Loader/Memory.antt =====
-- What the loader relies on in an address space: each byte is free or held, and a call that succeeds
-- does what it says to the range that it names and to nothing else.
use app_elfloader.Prelude.{
  ℕ, ◌+◌, ◌-◌, ◌%◌, ◌<◌, ◌≡◌, bit_and, Bool, true, false, ◌&&◌, Option, none, some, List, length,
  ltb, leb, ◌==◌, if◌then◌else◌,
}
use app_elfloader.Prelude.Int.{ℤ}
use app_elfloader.Action.{Post}
use app_elfloader.Word.{u64_end}
use app_elfloader.Sys.AppStack.{byte_or}
use app_elfloader.Layout.Plan.{prot_write}
use app_elfloader.Loader.{Vm, Where, MapSrc, exact, anon, file}

-- A byte in memory: one that was stored, or that of a mapped file at an offset.
pub data Datum : Type 0 where
  stored : ℕ → Datum
  mapped : ℤ → ℕ → Datum

pub data Cell : Type 0 where
  free : Cell
  held : ℕ → Datum → Cell

abbrev pub within : ℕ → ℕ → ℕ → Bool
within addr len x = leb addr x && ltb x (addr + len)

-- The byte at distance `k` from the start of a mapping.
abbrev pub datum_of : MapSrc → ℕ → Datum
datum_of anon k = stored 0
datum_of (file fd off) k = mapped fd (off + k)

abbrev pub is_writable : Cell → Bool
is_writable free = false
is_writable (held prot d) = if bit_and prot prot_write == 0 then false else true

abbrev pub with_prot : ℕ → Cell → Cell
with_prot prot free = free
with_prot prot (held old d) = held prot d

abbrev pub with_datum : Datum → Cell → Cell
with_datum d free = free
with_datum d (held prot old) = held prot d

abbrev pub datum : Cell → Option Datum
datum free = none
datum (held prot d) = some d

-- The memory with the cells of `[addr, addr + len)` changed.
abbrev pub changed : ℕ → ℕ → (ℕ → Cell → Cell) → (ℕ → Cell) → ℕ → Cell
changed addr len f v x = if within addr len x then f (x - addr) (v x) else v x

-- Nothing outside `[addr, addr + len)` changed.
abbrev pub SameOutside : ℕ → ℕ → (ℕ → Cell) → (ℕ → Cell) → Type 0
SameOutside addr len v v' = (x : ℕ) → within addr len x ≡ false → v' x ≡ v x

abbrev pub Same : (ℕ → Cell) → (ℕ → Cell) → Type 0
Same v v' = (x : ℕ) → v' x ≡ v x

abbrev pub AllWritable : (ℕ → Cell) → ℕ → ℕ → Type 0
AllWritable v addr len = (x : ℕ) → within addr len x ≡ true → is_writable (v x) ≡ true

abbrev pub AllFree : (ℕ → Cell) → ℕ → ℕ → Type 0
AllFree v addr len = (x : ℕ) → within addr len x ≡ true → v x ≡ free

-- The laws. Lengths of mappings are whole pages; a call that fails changes nothing outside its range,
-- and a protection that fails no stored byte.
pub record IsVm {S : Type 0} (vm : Vm S) (view : S → ℕ → Cell) : Type 0 where
  pub maps_exactly :
      (s : S) (addr len prot : ℕ) (src : MapSrc)
      → addr % vm.page_size ≡ 0
      → len % vm.page_size ≡ 0
      → Post
          (λ got s'.
            (got ≡ addr)
            × Same (changed addr len (λ k _. held prot (datum_of src k)) (view s)) (view s'))
          (λ e s'. SameOutside addr len (view s) (view s'))
          (vm.map (exact addr) len prot src s)
  -- Without an exact address a range is taken that was free.
  pub maps_somewhere :
      (s : S) (at : Where) (len prot : ℕ)
      → ((addr : ℕ) → ¬ (at ≡ exact addr))
      → len % vm.page_size ≡ 0
      → Post
          (λ got s'.
            (got % vm.page_size ≡ 0)
            × (got + len < u64_end)
            × AllFree (view s) got len
            × Same (changed got len (λ k _. held prot (stored 0)) (view s)) (view s'))
          (λ e s'. Same (view s) (view s'))
          (vm.map at len prot anon s)
  pub unmaps :
      (s : S) (addr len : ℕ)
      → addr % vm.page_size ≡ 0
      → len % vm.page_size ≡ 0
      → Post
          (λ _ s'. Same (changed addr len (λ k _. free) (view s)) (view s'))
          (λ e s'. Same (view s) (view s'))
          (vm.unmap addr len s)
  pub protects :
      (s : S) (addr len prot : ℕ)
      → addr % vm.page_size ≡ 0
      → len % vm.page_size ≡ 0
      → Post
          (λ _ s'. Same (changed addr len (λ k c. with_prot prot c) (view s)) (view s'))
          (λ e s'.
            SameOutside addr len (view s) (view s')
            × ((x : ℕ) → datum (view s' x) ≡ datum (view s x)))
          (vm.protect addr len prot s)
  -- The two that touch the bytes themselves need them to be writable.
  pub clears :
      (s : S) (addr len : ℕ)
      → AllWritable (view s) addr len
      → Post
          (λ _ s'. Same (changed addr len (λ k c. with_datum (stored 0) c) (view s)) (view s'))
          (λ e s'. SameOutside addr len (view s) (view s'))
          (vm.zero_fill addr len s)
  pub stores :
      (s : S) (addr : ℕ) (bytes : List ℕ)
      → AllWritable (view s) addr (length bytes)
      → Post
          (λ _ s'.
            Same
              (changed addr
                (length bytes)
                (λ k c. with_datum (stored (byte_or bytes k 0)) c)
                (view s))
              (view s'))
          (λ e s'. SameOutside addr (length bytes) (view s) (view s'))
          (vm.write addr bytes s)
  pub syncs : (s : S) (addr len : ℕ) → Same (view s) (view (vm.icache_sync addr len s))
  -- A block of memory that was free, and is writable.
  pub allocates :
      (s : S) (align len : ℕ)
      → Post
          (λ got s'.
            (got % align ≡ 0)
            × (got + len < u64_end)
            × AllFree (view s) got len
            × AllWritable (view s') got len
            × SameOutside got len (view s) (view s'))
          (λ e s'. Same (view s) (view s'))
          (vm.alloc_aligned align len s)
  pub frees :
      (s : S) (addr len : ℕ)
      → Same (changed addr len (λ k _. free) (view s)) (view (vm.free_aligned addr len s))
