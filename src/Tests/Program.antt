-- ===== src/Tests/Program.antt =====
-- The theorems on Program at the small executable and an interpreter for it.
use app_elfloader.Prelude.{
  ℕ, zero, suc, ◌-◌, ◌≤◌, ◌<◌, ◌≡◌, refl, ap, min, true, false, none, some, List, [], ◌∷◌, ◌++◌,
  length, take, drop, length-drop, arith,
}
use app_elfloader.Prelude.Int.{ℤ, pos, negsuc}
use app_elfloader.Outcome.{Outcome, ok, err, panic}
use app_elfloader.Err.{Error}
use app_elfloader.Action.{Post, returned, lift, ◌>>=◌}
use app_elfloader.Elf.Header.{em_x86_64, IsBytes}
use app_elfloader.Elf.Header.Encode.{encode_ehdr, encode_phdr}
use app_elfloader.Elf.Source.{IsSource}
use app_elfloader.Loader.Memory.{Cell}
use app_elfloader.Loader.Range.{KeepsHeld}
use app_elfloader.Loader.Copy.{IsFile}
use app_elfloader.Sys.AppStack.{byte_or}
use app_elfloader.Sys.File.{Reply, got, failed, file_source, IsPread}
use app_elfloader.Sys.File.Sound.{RefusesNegative, file_source-IsSource, file_source-IsFile}
use app_elfloader.Auxv.{AuxvSpec}
use app_elfloader.Program.{
  Opened, Opener, LoadedProgram, Environment, auxv, entry, interp_base, load_program,
}
use app_elfloader.Program.Took.{IsOpener}
use app_elfloader.Program.Sound.{IsProgram, load_program-IsProgram}
use app_elfloader.Program.Auxv.{Describes, load_program-Describes}
use app_elfloader.Tests.{
  page, page-IsPowerOfTwo, always, file, file-IsBytes, all_bytes-IsBytes, header, data_segment,
  interpreter, text,
}
use app_elfloader.Tests.Vm.{small_vm, small_vm-IsVm}
use app_elfloader.Tests.Loader.{empty}
use app_elfloader.Action.{or_else, ignore, modify}
use app_elfloader.Outcome.{reject_if, ok_or, map_err, index}
use app_elfloader.Word.{add64, sub64, mul64}
use app_elfloader.Elf.Header.{is_read, is_write, is_exec, read_le, parse_ehdr, parse_phdr}
use app_elfloader.Elf.Reject.{error_of}
use app_elfloader.Elf.Align.{is_power_of_two, align_down, align_up}
use app_elfloader.Elf.Load.{check_end, check_congruence, validate_load}
use app_elfloader.Elf.Image.{
  needs_interp, bytes_eq, check_ident, check_ehdr, check_table, read_table, check_interp_end,
  classify_load, classify_interp, classify_other, classify_one, classify, insert_load, sort_loads,
  check_pair, check_overlaps, parse_image,
}
use app_elfloader.Elf.Interp.{nul_position, cut_at, interp_path}
use app_elfloader.Elf.Span.{last_of, span_of, va_span, strongest, load_align}
use app_elfloader.Layout.Plan.{
  prot_of, range_of, range, seg_align, reservation_len, place, gap, file_part, plan_segment,
  plan_segments, plan,
}
use app_elfloader.Layout.View.{covers, exec_ranges_of, exec_ranges}
use app_elfloader.Loader.{
  map_file, zero_tail, map_anon, narrow, fill_segment, fill_segments, sync_tail, sync_tails,
  fill_mapped, keep_or_refuse, reserve_range, keep_filled, load_mapped, load_from, holds_entry,
  entry_is_executable, check_stack_request,
}
use app_elfloader.Program.{drop_after, parse_opened, interp_wanted, load_interp, load_wanted}
use app_elfloader.Sys.File.{received, read_from}
use app_elfloader.Tests.Vm.{all_free, take_range, map_at}

-- The interpreter: the same file, with an entry of no known type in place of PT_INTERP.
abbrev plain_file : List ℕ
plain_file =
    encode_ehdr header
    ++ encode_phdr data_segment
    ++ encode_phdr (record interpreter { p_type = 4 })
    ++ encode_phdr text
    ++ (b'/' ∷ b'l' ∷ b'd' ∷ 0 ∷ [])
    ++ (1 ∷ 2 ∷ 3 ∷ 4 ∷ 5 ∷ 6 ∷ 7 ∷ 8 ∷ [])

-- `/a` is the program, and every other path its interpreter.
abbrev contents_of : List ℕ → List ℕ
contents_of (a ∷ c ∷ []) = file
contents_of path = plain_file

-- A file that is read through `pread`, as the program's own opener does.
abbrev pread_of : List ℕ → ℤ → ℕ → ℤ → Reply
pread_of contents fd count (pos off) = got (take count (drop off contents))
pread_of contents fd count (negsuc n) = failed 21

abbrev opened_file : List ℕ → Opened
opened_file contents = record {
  src = file_source (pread_of contents) (record { fd = pos 3; size = some (length contents) });
  fd = some (pos 3);
}

abbrev two_files : Opener (ℕ → Cell)
two_files = record {
  open_path = λ path v. (ok (opened_file (contents_of path)), v);
  close = λ o v. v;
}

pread_of-IsPread : (contents : List ℕ) → IsPread contents (pread_of contents (pos 3))
pread_of-IsPread contents = record {
  serves = λ count off some_bytes inside. record {
    taken = min count (length contents - off);
    progress = omega arith;
    asked = omega arith;
    inside = omega arith;
    answer = ap got (take_min count off contents);
  };
  ends = λ count off behind. ap got (nothing_left count off contents behind);
}
  where
    take_all : (n m : ℕ) (xs : List ℕ) → m ≡ min n (length xs) → take n xs ≡ take m xs
    take_all zero m xs e = ap (λ (k : ℕ). take k xs) {x = 0} {y = m} (omega arith)
    take_all (suc n) zero [] e = refl
    take_all (suc n) (suc m) [] e = refl
    take_all (suc n) zero (x ∷ xs) e = absurd (omega arith)
    take_all (suc n) (suc m) (x ∷ xs) e = ap (λ t. x ∷ t) (take_all n m xs (omega arith))

    take_min :
        (count off : ℕ) (xs : List ℕ)
        → take count (drop off xs) ≡ take (min count (length xs - off)) (drop off xs)
    take_min count off xs = take_all count _ (drop off xs) (omega (arith, length-drop off xs))

    none_of : (n : ℕ) (xs : List ℕ) → length xs ≡ 0 → take n xs ≡ []
    none_of zero xs e = refl
    none_of (suc n) [] e = refl
    none_of (suc n) (x ∷ xs) e = absurd (omega arith)

    nothing_left : (count off : ℕ) (xs : List ℕ) → length xs ≤ off → take count (drop off xs) ≡ []
    nothing_left count off xs h = none_of count (drop off xs) (omega (arith, length-drop off xs))

pread_of-RefusesNegative : (contents : List ℕ) → RefusesNegative (pread_of contents (pos 3))
pread_of-RefusesNegative contents = record { refuses = λ count n. (21, refl, omega arith) }

opened_file-lawful :
    (contents : List ℕ)
    → IsBytes contents
    → length contents < 9223372036854775808
    → IsSource (opened_file contents).src
      × IsFile (opened_file contents).src (λ i. byte_or contents i 0)
opened_file-lawful contents bytes short = (
  file_source-IsSource contents bytes (pread_of contents) _ (pread_of-IsPread contents)
      (pread_of-RefusesNegative contents) short,
  file_source-IsFile contents bytes (pread_of contents) _ (pread_of-IsPread contents)
      (pread_of-RefusesNegative contents) short,
)

contents_of-IsBytes :
    (path : List ℕ) → IsBytes (contents_of path) × (length (contents_of path) < 9223372036854775808)
contents_of-IsBytes (a ∷ c ∷ []) = (file-IsBytes, omega arith)
contents_of-IsBytes [] = (all_bytes-IsBytes plain_file refl, omega arith)
contents_of-IsBytes (a ∷ []) = (all_bytes-IsBytes plain_file refl, omega arith)
contents_of-IsBytes (a ∷ c ∷ d ∷ path) = (all_bytes-IsBytes plain_file refl, omega arith)

two_files-IsOpener : IsOpener two_files (λ v. v)
two_files-IsOpener = record {
  opens = λ v path.
      let (bytes, short) = contents_of-IsBytes path in
      let (source, file) = opened_file-lawful (contents_of path) bytes short in
      returned (source, ((λ i. byte_or (contents_of path) i 0), file), λ x. refl);
  closes = λ v o x. refl;
}

load_program-IsProgram_example :
    Post
      (λ q s'. IsProgram em_x86_64 page empty q s')
      (λ e s'. KeepsHeld empty s')
      (load_program (small_vm true) always em_x86_64 two_files (b'/' ∷ b'a' ∷ []) empty)
load_program-IsProgram_example =
    load_program-IsProgram (small_vm-IsVm true) two_files-IsOpener always em_x86_64
      page-IsPowerOfTwo (b'/' ∷ b'a' ∷ []) empty

abbrev surroundings : Environment
surroundings = record {
  page_size = page;
  platform = b'x' ∷ [];
  execfn = b'/' ∷ b'a' ∷ [];
  random = [];
  uid = 0;
  gid = 0;
  hwcap = (7, 0);
  sysinfo_ehdr = none;
}

load_program-Describes_example :
    Post
      (λ (r : LoadedProgram × AuxvSpec) s'. Describes r.0 surroundings r.1)
      (λ e s'. KeepsHeld empty s')
      ((load_program (small_vm true) always em_x86_64 two_files (b'/' ∷ b'a' ∷ []) >>= λ q.
          lift (auxv false q surroundings) >>= λ spec. lift (ok (q, spec)))
        empty)
load_program-Describes_example =
    load_program-Describes (small_vm-IsVm true) two_files-IsOpener always em_x86_64
      page-IsPowerOfTwo false surroundings (b'/' ∷ b'a' ∷ []) empty

-- Both are loaded: the program at 65536 and its interpreter at 262144, where it is entered.
abbrev entered_at : Outcome Error LoadedProgram × (ℕ → Cell) → Outcome Error (ℕ × ℕ)
entered_at (ok q, v) = ok (entry q, interp_base q)
entered_at (err e, v) = err e
entered_at (panic, v) = panic

two_files_load :
    entered_at (load_program (small_vm true) always em_x86_64 two_files (b'/' ∷ b'a' ∷ []) empty)
    ≡ ok (262376, 262144)
unfolding lift or_else ignore ◌>>=◌ modify reject_if ok_or map_err index app_elfloader.Outcome.◌>>=◌
    add64 sub64 mul64 is_read is_write is_exec read_le parse_ehdr parse_phdr error_of
    is_power_of_two align_down align_up check_end check_congruence validate_load needs_interp
    bytes_eq check_ident check_ehdr check_table read_table check_interp_end classify_load
    classify_interp classify_other classify_one classify insert_load sort_loads check_pair
    check_overlaps parse_image nul_position cut_at interp_path last_of span_of va_span strongest
    load_align prot_of range_of range seg_align reservation_len place gap file_part plan_segment
    plan_segments plan covers exec_ranges_of exec_ranges map_file zero_tail map_anon narrow
    fill_segment fill_segments sync_tail sync_tails fill_mapped keep_or_refuse reserve_range
    keep_filled load_mapped load_from holds_entry entry_is_executable check_stack_request entry
    interp_base drop_after parse_opened interp_wanted load_interp load_wanted load_program received
    read_from file_source all_free take_range map_at
two_files_load = refl
