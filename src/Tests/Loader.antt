-- ===== src/Tests/Loader.antt =====
-- The theorems on Loader at the small executable and the small address space.
use app_elfloader.Prelude.{ℕ, ◌≡◌, refl, true, false, [], All, arith}
use app_elfloader.Prelude.Int.{pos}
use app_elfloader.Action.{Post}
use app_elfloader.Sys.AppStack.{byte_or}
use app_elfloader.Elf.Source.{slice_source}
use app_elfloader.Loader.{load_mapped, load_copied, fill_mapped, keep_filled}
use app_elfloader.Loader.Calls.{StaysIn, traced, fill_mapped-StaysIn}
use app_elfloader.Loader.Memory.{Cell, free, within, SameOutside}
use app_elfloader.Loader.Range.{KeepsHeld}
use app_elfloader.Loader.Paint.{paint_all}
use app_elfloader.Loader.Sound.{IsLoaded, load_mapped-IsLoaded}
use app_elfloader.Loader.Release.{keep_filled-frees}
use app_elfloader.Loader.Block.{IsLoadedBlock, load_copied-IsLoadedBlock}
use app_elfloader.Loader.Copy.{slice_source-IsFile}
use app_elfloader.Tests.{page, page-IsPowerOfTwo, always, file, file-IsBytes, image}
use app_elfloader.Tests.Elf.{image-IsWellFormed}
use app_elfloader.Tests.Layout.{expected, expected-IsSound}
use app_elfloader.Tests.Vm.{small_vm, small_vm-IsVm}

abbrev pub empty : ℕ → Cell
empty x = free

fill_mapped-StaysIn_example :
    All
      (StaysIn 65536 81920)
      (fill_mapped (traced (small_vm true)) image (pos 3) expected (empty, [])).1.1
unfolding expected
fill_mapped-StaysIn_example =
    fill_mapped-StaysIn (small_vm true) image (pos 3) expected empty (omega arith) expected-IsSound

load_mapped-IsLoaded_example :
    Post
      (λ l s'. IsLoaded page image (pos 3) empty l s')
      (λ e s'. KeepsHeld empty s')
      (load_mapped (small_vm true) always image (pos 3) page empty)
load_mapped-IsLoaded_example =
    load_mapped-IsLoaded (small_vm-IsVm true) always page-IsPowerOfTwo image image-IsWellFormed
      (pos 3) empty

load_copied-IsLoadedBlock_example :
    Post
      (λ l s'. IsLoadedBlock page image (λ i. byte_or file i 0) empty l s')
      (λ e s'. KeepsHeld empty s')
      (load_copied (small_vm false) always image (slice_source file) page empty)
load_copied-IsLoadedBlock_example =
    load_copied-IsLoadedBlock (small_vm-IsVm false) always page-IsPowerOfTwo image
      image-IsWellFormed (slice_source-IsFile file file-IsBytes) empty

keep_filled-frees_example :
    Post
      (λ l s'.
        (l.plan ≡ expected) × ((x : ℕ) → s' x ≡ paint_all (pos 3) expected.segments x (empty x)))
      (λ e s'.
        ((x : ℕ) → within 65536 16384 x ≡ true → s' x ≡ free) × SameOutside 65536 16384 empty s')
      (keep_filled
        (small_vm true)
        (record { plan = expected; allocated = false })
        (fill_mapped (small_vm true) image (pos 3) expected)
        empty)
unfolding expected
keep_filled-frees_example =
    keep_filled-frees (small_vm-IsVm true) page-IsPowerOfTwo image (pos 3) expected empty
      expected-IsSound refl refl (λ t. (_, refl))
