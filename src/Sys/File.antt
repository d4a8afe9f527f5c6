-- ===== src/Sys/File.antt =====
-- rust/src/sys.rs: `File` and `MemImage` as image sources. `elfrs_pread` is a parameter: what it
-- returns for a count and an offset, with the bytes that it puts into the buffer.
pub mod Sound
use app_elfloader.Prelude.{
  ℕ, zero, suc, ◌+◌, ◌-◌, ◌≤◌, ◌<◌, ◌≡◌, ◌==◌, refl, sym, ap, ◌∙◌, List, [], ◌∷◌, ◌++◌, length,
  take, drop, ltb, Option, some, if◌then◌else◌, arith, lt→ltb, ltb→lt, le→not-ltb, not-ltb→le,
  Bool-cases, inl, inr, length-append, length-take, length-drop,
}
use app_elfloader.Prelude.Int.{ℤ, pos, negsuc}
use app_elfloader.Outcome.{Outcome, ok, err, panic, ok_or, reject_if, ◌>>=◌, ◌>>◌}
use app_elfloader.Word.{add64, u64_end, checked_add}
use app_elfloader.Err.{Error, enoexec, as_i32}
use app_elfloader.Elf.Source.{ImageSource}

-- The number of bytes put into the buffer, with these bytes, or a negative number.
pub data Reply : Type 0 where
  got : List ℕ → Reply
  failed : ℕ → Reply

-- `as i64`
abbrev pub as_i64 : ℕ → ℤ
as_i64 n = if ltb n 9223372036854775808 then pos n else negsuc (18446744073709551616 - n - 1)

unfoldable pub received : Reply → Outcome Error (List ℕ)
received (got []) = err enoexec
received (got (b ∷ bs)) = ok (b ∷ bs)
received (failed n) =
    if n == 9223372036854775807 then panic else err (record { errno = as_i32 (suc n) })

-- `done` is the part of the buffer that is filled. Every turn fills a byte, so the length of the
-- buffer is fuel enough.
unfoldable pub read_from : (ℕ → ℤ → Reply) → ℕ → ℕ → ℕ → List ℕ → Outcome Error (List ℕ)
unfolding received
read_from pread zero off len done = if ltb (length done) len then panic else ok done
read_from pread (suc fuel) off len done =
    if ltb (length done) len
    then (do
      from ← add64 off (length done)
      next ← received (pread (len - length done) (as_i64 from))
      read_from pread fuel off len (done ++ next))
    else ok done

pub record File : Type 0 where
  pub fd : ℤ
  pub size : Option ℕ

unfoldable pub file_source : (ℤ → ℕ → ℤ → Reply) → File → ImageSource
unfolding read_from
file_source pread f = record {
  read_exact_at = λ off len. read_from (pread f.fd) len off len [];
  size = f.size;
}

-- The bytes of the region at `base`.
pub record MemImage : Type 0 where
  pub region : List ℕ

unfoldable pub mem_source : MemImage → ImageSource
mem_source m = record {
  read_exact_at = λ off len. do
    end ← ok_or (checked_add off len) enoexec
    reject_if (ltb (length m.region) end) enoexec
    ok (take len (drop off m.region));
  size = some (length m.region);
}

-- An answer of between 1 and `count` bytes of the contents at `off`.
pub record IsServed (contents : List ℕ) (count off : ℕ) (reply : Reply) : Type 0 where
  pub taken : ℕ
  pub progress : 0 < taken
  pub asked : taken ≤ count
  pub inside : off + taken ≤ length contents
  pub answer : reply ≡ got (take taken (drop off contents))

-- `pread` on a file of these contents: some of the bytes asked for, and none at the end alone.
pub record IsPread (contents : List ℕ) (pread : ℕ → ℤ → Reply) : Type 0 where
  pub serves :
      (count off : ℕ)
      → 0 < count
      → off < length contents
      → IsServed contents count off (pread count (pos off))
  pub ends : (count off : ℕ) → length contents ≤ off → pread count (pos off) ≡ got []

drop_nil : (n : ℕ) → ◌≡◌ {A = List ℕ} [] (drop n [])
drop_nil zero = refl
drop_nil (suc n) = refl

drop-drop : (d off n : ℕ) (s : List ℕ) → n ≡ off + d → drop d (drop off s) ≡ drop n s
drop-drop d zero n s e = ap (λ (m : ℕ). drop m s) (omega arith)
drop-drop zero (suc off) n [] e = drop_nil n
drop-drop (suc d) (suc off) n [] e = drop_nil n
drop-drop d (suc off) zero (x ∷ s) e = absurd (omega arith)
drop-drop d (suc off) (suc n) (x ∷ s) e = drop-drop d off n s (omega arith)

take_then : (d k n : ℕ) (s : List ℕ) → n ≡ d + k → take d s ++ take k (drop d s) ≡ take n s
take_then zero k n s e = ap (λ (m : ℕ). take m s) (omega arith)
take_then (suc d) k zero s e = absurd (omega arith)
take_then (suc d) zero (suc n) [] e = refl
take_then (suc d) (suc k) (suc n) [] e = refl
take_then (suc d) k (suc n) (x ∷ s) e = ap (λ t. x ∷ t) (take_then d k n s (omega arith))

received-got : (bs : List ℕ) → 0 < length bs → received (got bs) ≡ ok bs
unfolding received
received-got [] h = absurd (omega arith)
received-got (b ∷ bs) h = refl

module _ (contents : List ℕ) (pread : ℕ → ℤ → Reply) (lawful : IsPread contents pread) where
  -- One turn of the loop.
  pub read_from-next :
      (fuel off len : ℕ) (done : List ℕ)
      → length done < len
      → off + length done < 9223372036854775808
      → (served : IsServed contents
          (len - length done)
          (off + length done)
          (pread (len - length done) (pos (off + length done))))
      → read_from pread (suc fuel) off len done
        ≡ read_from pread fuel off len
            (done ++ take served.taken (drop (off + length done) contents))
  unfolding read_from add64 ◌>>=◌
  read_from-next fuel off len done more small served =
      rw
        (
          lt→ltb (length done) len more,
          lt→ltb (off + length done) u64_end (omega arith),
          lt→ltb (off + length done) 9223372036854775808 (omega arith),
          served.answer,
          received-got (take served.taken (drop (off + length done) contents)) (
              omega (
                arith,
                served.progress,
                served.inside,
                length-take served.taken (drop (off + length done) contents),
                length-drop (off + length done) contents,
              )),
        )
        refl

  read_from-done :
      (fuel off len : ℕ) (done : List ℕ)
      → length done ≡ len
      → read_from pread fuel off len done ≡ ok done
  unfolding read_from
  read_from-done zero off len done full =
      rw (le→not-ltb (length done) len (omega (arith, full))) refl
  read_from-done (suc fuel) off len done full =
      rw (le→not-ltb (length done) len (omega (arith, full))) refl

  filled : (off d : ℕ) → off + d ≤ length contents → length (take d (drop off contents)) ≡ d
  filled off d inside = omega (arith, length-take d (drop off contents), length-drop off contents)

  pub answer_next :
      (off len : ℕ) (done : List ℕ)
      → length done < len
      → off + length done < length contents
      → IsServed contents
          (len - length done)
          (off + length done)
          (pread (len - length done) (pos (off + length done)))
  answer_next off len done more inside =
      lawful.serves (len - length done) (off + length done) (omega (arith, more)) inside

  extended :
      (off d n taken : ℕ)
      → off + d ≤ length contents
      → n ≡ off + length (take d (drop off contents))
      → take d (drop off contents) ++ take taken (drop n contents)
        ≡ take (d + taken) (drop off contents)
  extended off d n taken inside e =
      ap (λ t. take d (drop off contents) ++ take taken t)
        (sym (drop-drop d off n contents (omega (arith, e, filled off d inside))))
      ∙ take_then d taken (d + taken) (drop off contents) refl

  read_whole :
      (fuel off len d : ℕ)
      → d ≤ len
      → off + len ≤ length contents
      → len ≤ fuel + d
      → off + len < 9223372036854775808
      → read_from pread fuel off len (take d (drop off contents))
        ≡ ok (take len (drop off contents))
  read_whole zero off len d within inside enough small =
      read_from-done 0 off len _ (omega (arith, filled off d (omega arith)))
      ∙ ap (λ (m : ℕ). ok (take m (drop off contents))) (omega arith)
  read_whole (suc fuel) off len d within inside enough small = elim (Bool-cases (ltb d len)) [
    | inr full ↦
        read_from-done (suc fuel) off len _ (ground (arith, filled off d (omega arith)))
        ∙ ap (λ (m : ℕ). ok (take m (drop off contents))) (ground arith)
    | inl more ↦
        let served =
          answer_next off len (take d (drop off contents))
            (ground (arith, filled off d (omega arith)))
            (ground (arith, filled off d (omega arith))) in
        read_from-next fuel off len (take d (drop off contents))
          (ground (arith, filled off d (omega arith))) (ground (arith, filled off d (omega arith)))
          served
        ∙ ap (read_from pread fuel off len) (extended off d _ served.taken (omega arith) refl)
        ∙ read_whole fuel off len (d + served.taken)
            (omega (arith, served.asked, filled off d (omega arith))) inside
            (omega (arith, served.progress)) small
  ]

  pub longer_by :
      (done : List ℕ) (off k : ℕ)
      → off + length done + k ≤ length contents
      → length (done ++ take k (drop (off + length done) contents)) ≡ length done + k
  longer_by done off k inside = omega (
    arith,
    length-append done (take k (drop (off + length done) contents)),
    length-take k (drop (off + length done) contents),
    length-drop (off + length done) contents,
  )

  read_short :
      (fuel off len : ℕ) (done : List ℕ)
      → length done < len
      → length contents < off + len
      → len ≤ fuel + length done
      → off + len < 9223372036854775808
      → read_from pread fuel off len done ≡ err enoexec
  unfolding read_from add64 ◌>>=◌ received
  read_short zero off len done more outside enough small = absurd (omega arith)
  read_short (suc fuel) off len done more outside enough small =
      elim (Bool-cases (ltb (off + length done) (length contents))) [
        | inl left ↦
            let served = answer_next off len done more (ltb→lt _ _ left) in
            let longer = done ++ take served.taken (drop (off + length done) contents) in
            read_from-next fuel off len done more (omega arith) served
            ∙ read_short fuel off len longer
                (omega (arith, served.inside, longer_by done off served.taken)) outside
                (omega (arith, served.progress, served.inside, longer_by done off served.taken))
                small
        | inr ended ↦
            rw
              (
                lt→ltb (length done) len more,
                lt→ltb (off + length done) u64_end (omega arith),
                lt→ltb (off + length done) 9223372036854775808 (omega arith),
                lawful.ends (len - length done) (off + length done) (not-ltb→le _ _ ended),
              )
              refl
      ]

-- A file whose `pread` may answer with fewer bytes than it was asked for is read like the same bytes in
-- memory: the loop ends, with the bytes of the range, or with ENOEXEC when the file ends within it. The
-- range is not empty, and its offsets are no negative i64.
pub file_source-eq-mem_source :
    (contents : List ℕ) (pread : ℤ → ℕ → ℤ → Reply) (f : File)
    → IsPread contents (pread f.fd)
    → (off len : ℕ) → 0 < len
    → off + len < 9223372036854775808
    → (file_source pread f).read_exact_at off len
      ≡ (mem_source (record { region = contents })).read_exact_at off len
unfolding file_source mem_source ok_or reject_if ◌>>=◌
file_source-eq-mem_source contents pread f lawful off len some_bytes small =
    elim (Bool-cases (ltb (length contents) (off + len))) [
      | inl short ↦
          rw (lt→ltb (off + len) u64_end (omega arith), short)
            (read_short contents (pread f.fd) lawful len off len [] (omega arith) (ltb→lt _ _ short)
              (omega arith) small)
      | inr inside ↦
          rw (lt→ltb (off + len) u64_end (omega arith), inside)
            (read_whole contents (pread f.fd) lawful len off len 0 (omega arith)
              (not-ltb→le _ _ inside) (omega arith) small)
    ]
