-- ===== src/Loader/Copy.antt =====
-- The copy loop of `fill_copied`: it ends, and leaves the file's bytes.
use app_elfloader.Prelude.{
  ℕ, zero, suc, ◌+◌, ◌-◌, ◌≤◌, ◌<◌, ◌≡◌, refl, min, Bool, true, false, List, [], ◌∷◌, length, take,
  drop, ltb, if◌then◌else◌, arith, sym, ap, ◌∙◌, ltb→lt, not-ltb→le,
}
use app_elfloader.Outcome.{ok, Safe, Safe-ok, Safe-intro, Safe-ne_panic, >>=-eq-ok, ok-injective}
use app_elfloader.Action.{Post, Post-map, Post-bind, Post-done, Post-if, Post-pure, Post-pure_is}
use app_elfloader.Word.{u64_end, Safe-add64, Safe-sub64}
use app_elfloader.Elf.Header.{IsBytes}
use app_elfloader.Elf.Source.{ImageSource, slice_read, slice_source, slice_source-IsReader}
use app_elfloader.Sys.AppStack.{byte_or}
use app_elfloader.Loader.{Vm, copy_chunks, copy_chunk}
use app_elfloader.Loader.Range.{
  within-part, within_off, within_after, changed-outside, changed-writable, AllWritable-part,
}
use app_elfloader.Loader.Memory.{
  Cell, IsVm, SameOutside, AllWritable, changed, within, stored, is_writable, with_datum,
}

-- What a source promises: a read at an offset of 64 bits into a buffer that a Rust slice can be does not
-- panic, and one that succeeds gives the bytes of the file.
pub record IsFile (src : ImageSource) (contents : ℕ → ℕ) : Type 0 where
  pub reads :
      (off n : ℕ)
      → off < u64_end
      → n < 9223372036854775808
      → Safe
          (λ bs. (length bs ≡ n) × ((k : ℕ) → k < n → byte_or bs k 0 ≡ contents (off + k)))
          (src.read_exact_at off n)

byte_or-take :
    (n : ℕ) (xs : List ℕ) (k old : ℕ) → k < n → byte_or (take n xs) k old ≡ byte_or xs k old
byte_or-take zero xs k old h = absurd (omega arith)
byte_or-take (suc n) [] k old h = refl
byte_or-take (suc n) (x ∷ xs) zero old h = refl
byte_or-take (suc n) (x ∷ xs) (suc k) old h = byte_or-take n xs k old (omega arith)

byte_or-drop :
    (off : ℕ) (xs : List ℕ) (k old : ℕ) → byte_or (drop off xs) k old ≡ byte_or xs (off + k) old
byte_or-drop zero xs k old = ap (λ (j : ℕ). byte_or xs j old) (omega arith)
byte_or-drop (suc off) [] k old = refl
byte_or-drop (suc off) (x ∷ xs) k old =
    byte_or-drop off xs k old ∙ ap (λ (j : ℕ). byte_or (x ∷ xs) j old) next
  where
    next : suc (off + k) ≡ suc off + k
    next = omega arith

-- A byte slice is a source of its own bytes.
pub slice_source-IsFile : (s : List ℕ) → IsBytes s → IsFile (slice_source s) (λ i. byte_or s i 0)
unfolding slice_source slice_read
slice_source-IsFile s bytes = record {
  reads = λ off n _ _.
      let filled : (bs : List ℕ) → slice_read s off n ≡ ok bs → length bs ≡ n =
        λ bs e. (Safe-ok ((slice_source-IsReader s bytes).fills off n) e).0 in
      Safe-intro _ (Safe-ne_panic ((slice_source-IsReader s bytes).fills off n))
        (λ bs e. (filled bs e, λ k h. same off n bs e k h));
}
  where
    same :
        (off n : ℕ) (bs : List ℕ)
        → slice_read s off n ≡ ok bs
        → (k : ℕ) → k < n
        → byte_or bs k 0 ≡ byte_or s (off + k) 0
    same off n bs e k h =
        let (end, _, e1) = >>=-eq-ok _ _ e in
        let (_, _, e2) = >>=-eq-ok _ _ e1 in
        ap (λ xs. byte_or xs k 0) (sym (ok-injective e2))
        ∙ byte_or-take n (drop off s) k 0 h
        ∙ byte_or-drop off s k 0

-- The file's bytes from `at` on, for `len` bytes, stored.
abbrev pub stored_from : (ℕ → ℕ) → ℕ → ℕ → ℕ → ℕ → Cell → Cell
stored_from contents base addr len x c =
    if within addr len x then with_datum (stored (contents (x - base))) c else c

nothing_stored : (g : ℕ → ℕ) (base addr x : ℕ) (c : Cell) → c ≡ stored_from g base addr 0 x c
nothing_stored g base addr x c =
    ap (λ b. if b then with_datum (stored (g (x - base))) c else c) (sym nowhere)
  where
    nowhere : within addr 0 x ≡ false
    nowhere = ground arith

-- A chunk and what follows it.
stored_chunk :
    (g : ℕ → ℕ) (buf : List ℕ) (base done n rest left x : ℕ) (c : Cell)
    → length buf ≡ n
    → n + rest ≡ left
    → ((k : ℕ) → k < n → byte_or buf k 0 ≡ g (done + k))
    → stored_from g base (base + (done + n)) rest x (
        if within (base + done) (length buf) x
        then with_datum (stored (byte_or buf (x - (base + done)) 0)) c
        else c)
      ≡ stored_from g base (base + done) left x c
stored_chunk g buf base done n rest left x c size fits bytes =
    from (within (base + done) (length buf) x) refl
  where
    chunk : Bool → Cell
    chunk b = if b then with_datum (stored (byte_or buf (x - (base + done)) 0)) c else c

    whole : Bool → Cell
    whole b = if b then with_datum (stored (g (x - base))) c else c

    next : Cell → Cell
    next = stored_from g base (base + (done + n)) rest x

    from :
        (b : Bool)
        → within (base + done) (length buf) x ≡ b
        → next (chunk b) ≡ stored_from g base (base + done) left x c
    from true t =
        ap (λ b. if b then with_datum (stored (g (x - base))) (chunk true) else chunk true)
          (within_after (base + done) (length buf) (base + (done + n)) rest x (omega arith) t)
        ∙ ap (λ (j : ℕ). with_datum (stored j) c)
            (bytes (x - (base + done)) (ground arith) ∙ ap g (ground arith))
        ∙ sym (
            ap whole (
              within-part (base + done) left (base + done) (length buf) x (omega arith)
                (omega arith) t))
    from false f = ap whole (ground arith)

module _ {S : Type 0} {vm : Vm S} {view : S → ℕ → Cell} (laws : IsVm vm view) {src : ImageSource}
    {contents : ℕ → ℕ} (file : IsFile src contents) (offset vaddr filesz : ℕ)
    (file_fits : offset + filesz < u64_end) (memory_fits : vaddr + filesz < u64_end) where
  nothing_left :
      (done : ℕ)
      → filesz ≤ done
      → (x : ℕ) (c : Cell)
      → c ≡ stored_from (λ d. contents (offset + d)) vaddr (vaddr + done) (filesz - done) x c
  nothing_left done h x c =
      nothing_stored (λ d. contents (offset + d)) vaddr (vaddr + done) x c
      ∙ ap (λ (l : ℕ). stored_from (λ d. contents (offset + d)) vaddr (vaddr + done) l x c)
          (omega arith)

  -- With fuel for what is left, the loop does not panic. The byte at each address is then that of the
  -- file at the same distance from the start.
  pub Post-copy_chunks :
      (fuel done : ℕ) (s : S)
      → done ≤ filesz
      → filesz - done ≤ fuel
      → AllWritable (view s) (vaddr + done) (filesz - done)
      → Post
          (λ _ s'.
            (x : ℕ)
            → view s' x
              ≡ stored_from
                  (λ d. contents (offset + d))
                  vaddr
                  (vaddr + done)
                  (filesz - done)
                  x
                  (view s x))
          (λ e s'. SameOutside vaddr filesz (view s) (view s'))
          (copy_chunks vm src offset vaddr filesz fuel done s)
  unfolding copy_chunks
  Post-copy_chunks zero done s low enough writable =
      Post-if (ltb done filesz) _ _ s (λ t. absurd (omega (arith, ltb→lt _ _ t)))
        (λ f. Post-done tt s (λ x. nothing_left done (not-ltb→le _ _ f) x (view s x)))
  Post-copy_chunks (suc fuel) done s low enough writable =
      Post-if (ltb done filesz) _ _ s
        (λ t.
          let more : done < filesz = ltb→lt _ _ t in
          Post-pure_is _ _ s (Safe-sub64 filesz done low)
            (Post-pure_is _ _ s (Safe-add64 offset done (omega arith))
              (Post-pure _ _ s
                (file.reads (offset + done) (min copy_chunk (filesz - done)) (omega arith)
                  (omega arith))
                (λ buf (size, bytes).
                  Post-pure_is _ _ s (Safe-add64 vaddr done (omega arith))
                    (Post-bind _ _ s
                      (laws.stores s (vaddr + done) buf (
                        AllWritable-part (view s) (vaddr + done) (filesz - done) (vaddr + done)
                          (length buf) (omega arith) (omega (arith, size)) writable))
                      (λ _ s1 e1.
                        Post-pure_is _ _ s1
                          (Safe-add64 done (min copy_chunk (filesz - done)) (omega arith))
                          (Post-map
                            (Post-copy_chunks fuel (done + min copy_chunk (filesz - done)) s1
                              (omega arith) (omega (arith, more))
                              (λ x h.
                                ap is_writable (e1 x)
                                ∙ changed-writable (vaddr + done) (length buf)
                                    (λ k. stored (byte_or buf k 0)) (view s) x
                                ∙ writable x
                                    (within-part _ _ _ _ x (omega arith) (omega (arith, more)) h)))
                            (λ _ s2 e2 x.
                              e2 x
                              ∙ ap
                                  (λ c.
                                    stored_from (λ d. contents (offset + d)) vaddr
                                      (vaddr + (done + min copy_chunk (filesz - done)))
                                      (filesz - (done + min copy_chunk (filesz - done))) x c)
                                  (e1 x)
                              ∙ stored_chunk (λ d. contents (offset + d)) buf vaddr done
                                  (min copy_chunk (filesz - done)) _ (filesz - done) x (view s x)
                                  size (omega (arith, more))
                                  (λ k h. bytes k h ∙ ap contents (omega arith)))
                            (λ e s2 same x h.
                              same x h ∙ e1 x ∙ off_chunk buf x (omega (arith, size)) h))
                          (λ e x h. e1 x ∙ off_chunk buf x (omega (arith, size)) h))
                      (λ e s1 same x h. same x (
                        within_off vaddr filesz (vaddr + done) (length buf) x (omega arith)
                          (omega (arith, size)) h)))
                    (λ e x h. refl))
                (λ e x h. refl))
              (λ e x h. refl))
            (λ e x h. refl))
        (λ f. Post-done tt s (λ x. nothing_left done (not-ltb→le _ _ f) x (view s x)))
    where
      off_chunk :
          (buf : List ℕ) (x : ℕ)
          → done + length buf ≤ filesz
          → within vaddr filesz x ≡ false
          → changed
              (vaddr + done)
              (length buf)
              (λ k c. with_datum (stored (byte_or buf k 0)) c)
              (view s)
              x
            ≡ view s x
      off_chunk buf x fits h =
          changed-outside (vaddr + done) (length buf)
            (λ k c. with_datum (stored (byte_or buf k 0)) c) (view s) x
            (within_off vaddr filesz (vaddr + done) (length buf) x (omega arith) (omega arith) h)
