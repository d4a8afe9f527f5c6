-- ===== src/Elf/Source.antt =====
-- rust/src/elf.rs: `ImageSource`, and its implementation by a byte slice. A source is taken as a
-- function: two reads of one range give the same bytes.
use app_elfloader.Prelude.{
  ℕ, ◌<◌, ◌≡◌, Option, some, List, length, take, drop, ltb, arith, length-take, length-drop,
  All-take, All-drop,
}
use app_elfloader.Outcome.{
  Outcome, ok, ok_or, reject_if, ◌>>=◌, ◌>>◌, Safe, returns, Safe-bind, Safe-reject_if, Safe-ok_or,
}
use app_elfloader.Word.{u64_end, checked_add, checked_add-eq-some}
use app_elfloader.Elf.Header.{IsBytes}
use app_elfloader.Err.{Error, enoexec}

-- `read_exact_at off n` fills a buffer of `n` bytes.
pub record ImageSource : Type 0 where
  pub read_exact_at : ℕ → ℕ → Outcome Error (List ℕ)
  pub size : Option ℕ

-- A read that succeeds has filled its buffer with bytes, and no read panics.
pub record IsReader (src : ImageSource) : Type 0 where
  pub fills : (off n : ℕ) → Safe (λ bs. (length bs ≡ n) × IsBytes bs) (src.read_exact_at off n)

-- The same of the reads that the program can ask for: at an offset of 64 bits, into a buffer that a Rust
-- slice can be.
pub record IsSource (src : ImageSource) : Type 0 where
  pub fills :
      (off n : ℕ)
      → off < u64_end
      → n < 9223372036854775808
      → Safe (λ bs. (length bs ≡ n) × IsBytes bs) (src.read_exact_at off n)

pub IsReader-IsSource : {src : ImageSource} → IsReader src → IsSource src
IsReader-IsSource reader = record { fills = λ off n small short. reader.fills off n }

-- `impl ImageSource for &[u8]`; `usize` holds every u64.
unfoldable pub slice_read : List ℕ → ℕ → ℕ → Outcome Error (List ℕ)
slice_read s off n = do
  end ← ok_or (checked_add off n) enoexec
  reject_if (ltb (length s) end) enoexec
  ok (take n (drop off s))

unfoldable pub slice_source : List ℕ → ImageSource
unfolding slice_read
slice_source s = record { read_exact_at = slice_read s; size = some (length s) }

-- A slice of bytes is a reader.
pub slice_source-IsReader : (s : List ℕ) → IsBytes s → IsReader (slice_source s)
unfolding slice_source
slice_source-IsReader s bytes = record {
  fills = λ off n.
      Safe-bind (ok_or (checked_add off n) enoexec) _
        (Safe-ok_or (checked_add off n) enoexec (λ end e. e))
        (λ end e.
          Safe-bind (reject_if (ltb (length s) end) enoexec) _
            (Safe-reject_if (ltb (length s) end) enoexec)
            (λ _ fits. returns (
              ground (
                arith,
                checked_add-eq-some off n e,
                length-take n (drop off s),
                length-drop off s,
              ),
              All-take (λ b. b < 256) n (drop off s) (All-drop (λ b. b < 256) off s bytes),
            )));
}
