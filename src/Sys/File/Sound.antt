-- ===== src/Sys/File/Sound.antt =====
-- What an open file promises a program that is loaded from it.
use app_elfloader.Prelude.{
  ℕ, zero, suc, ◌+◌, ◌-◌, ◌≤◌, ◌<◌, ◌≡◌, ◌==◌, sym, refl, subst, false, List, [], ◌++◌, length,
  take, drop, ltb, arith, lt→ltb, ltb→lt, not-ltb→le, Bool-cases, inl, inr,
}
use app_elfloader.Prelude.Int.{ℤ, negsuc}
use app_elfloader.Outcome.{
  Safe, returns, fails, Safe-map, Safe-intro, Safe-ne_panic, Safe-ok, ◌>>=◌,
}
use app_elfloader.Word.{add64, u64_end}
use app_elfloader.Elf.Header.{IsBytes}
use app_elfloader.Elf.Source.{IsSource, slice_read, slice_source, slice_source-IsReader}
use app_elfloader.Loader.Copy.{IsFile, slice_source-IsFile}
use app_elfloader.Sys.AppStack.{byte_or}
use app_elfloader.Sys.File.{
  Reply, failed, received, read_from, File, file_source, mem_source, IsPread, read_from-next,
  answer_next, longer_by, file_source-eq-mem_source,
}

-- A negative offset is answered with the negative of a POSIX error number.
pub record RefusesNegative (pread : ℕ → ℤ → Reply) : Type 0 where
  pub refuses : (count n : ℕ) → (e : ℕ) × (pread count (negsuc n) ≡ failed e) × (e < 4096)

module _ (contents : List ℕ) (pread : ℕ → ℤ → Reply) (lawful : IsPread contents pread)
    (refuse : RefusesNegative pread) (short : length contents < 9223372036854775808) where
  -- A read that goes on behind the end of the file fails, and does not panic.
  Safe-read_beyond :
      {P : List ℕ → Type 0} (fuel off len : ℕ) (done : List ℕ)
      → length done < len
      → length contents < off + len
      → len ≤ fuel + length done
      → off + length done < u64_end
      → Safe P (read_from pread fuel off len done)
  unfolding read_from add64 ◌>>=◌ received
  Safe-read_beyond zero off len done more outside enough fits = absurd (omega arith)
  Safe-read_beyond {P} (suc fuel) off len done more outside enough fits =
      elim (Bool-cases (ltb (off + length done) (length contents))) [
        | inl left ↦
            let inside = ltb→lt _ _ left in
            let served = answer_next contents pread lawful off len done more inside in
            let longer = done ++ take served.taken (drop (off + length done) contents) in
            let size = longer_by contents pread lawful done off served.taken served.inside in
            subst (Safe P)
              (sym
                (read_from-next contents pread lawful fuel off len done more (omega arith) served))
              (Safe-read_beyond fuel off len longer (omega (arith, served.inside, size)) outside
                (omega (arith, served.progress, size)) (omega (arith, served.inside, size)))
        | inr ended ↦ elim (Bool-cases (ltb (off + length done) 9223372036854775808)) [
          | inl small ↦
              rw
                (
                  lt→ltb (length done) len more,
                  lt→ltb (off + length done) u64_end fits,
                  small,
                  lawful.ends (len - length done) (off + length done) (not-ltb→le _ _ ended),
                )
                fails
          | inr negative ↦
              let (e, is_e, few) =
                refuse.refuses (len - length done)
                  (18446744073709551616 - (off + length done) - 1) in
              rw
                (
                  lt→ltb (length done) len more,
                  lt→ltb (off + length done) u64_end fits,
                  negative,
                  is_e,
                  no_minimum e few,
                )
                fails
        ]
      ]
    where
      no_minimum : (e : ℕ) → e < 4096 → (e == 9223372036854775807) ≡ false
      no_minimum e few = ground arith

-- What a read of a file gives.
abbrev Gives : List ℕ → ℕ → ℕ → List ℕ → Type 0
Gives contents off len bs =
    (length bs ≡ len)
    × IsBytes bs
    × ((k : ℕ) → k < len → byte_or bs k 0 ≡ byte_or contents (off + k) 0)

module _ (contents : List ℕ) (bytes : IsBytes contents) (pread : ℤ → ℕ → ℤ → Reply) (f : File)
    (lawful : IsPread contents (pread f.fd)) (refuse : RefusesNegative (pread f.fd))
    (short : length contents < 9223372036854775808) where
  Safe-slice :
      (off len : ℕ)
      → off < u64_end
      → len < 9223372036854775808
      → Safe (Gives contents off len) (slice_read contents off len)
  unfolding slice_source
  Safe-slice off len fits small =
      let reader = (slice_source-IsReader contents bytes).fills off len in
      let file = (slice_source-IsFile contents bytes).reads off len fits small in
      Safe-intro _ (Safe-ne_panic reader)
        λ bs e. ((Safe-ok reader e).0, (Safe-ok reader e).1, (Safe-ok file e).1)

  Safe-read :
      (off len : ℕ)
      → off < u64_end
      → len < 9223372036854775808
      → Safe (Gives contents off len) ((file_source pread f).read_exact_at off len)
  unfolding file_source mem_source slice_read read_from
  Safe-read off zero fits small = returns (refl, tt, λ k h. absurd (omega arith))
  Safe-read off (suc n) fits small = elim (Bool-cases (ltb (off + suc n) 9223372036854775808)) [
    | inl near ↦
        subst (Safe (Gives contents off (suc n)))
          (sym (
            file_source-eq-mem_source contents pread f lawful off (suc n) (omega arith)
              (ltb→lt _ _ near)))
          (Safe-slice off (suc n) fits small)
    | inr far ↦
        Safe-read_beyond contents (pread f.fd) lawful refuse short (suc n) off (suc n) []
          (omega arith) (omega (arith, not-ltb→le _ _ far)) (omega arith) (omega arith)
  ]

  -- A file is a source of bytes for every read that the program can ask for,
  pub file_source-IsSource : IsSource (file_source pread f)
  file_source-IsSource = record {
    fills = λ off n fits small. Safe-map (Safe-read off n fits small) λ bs g. (g.0, g.1);
  }

  -- and gives its own bytes.
  pub file_source-IsFile : IsFile (file_source pread f) (λ i. byte_or contents i 0)
  file_source-IsFile = record {
    reads = λ off n fits small. Safe-map (Safe-read off n fits small) λ bs g. (g.0, g.2);
  }
