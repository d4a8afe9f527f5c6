-- ===== src/Elf/Image/Parse.antt =====
-- `Image::parse` as a whole.
use app_elfloader.Prelude.{
  ℕ, ◌≡◌, ◌≢◌, sym, ap, Option, List, [], ◌∷◌, length, get_elem?, arith, Bool, false, ◌==◌, All,
  subst,
}
use mathlib.Core.List.{Perm}
use mathlib.Core.List.Perm
use app_elfloader.Outcome.{
  ok, panic, Safe, returns, Safe-bind, Safe-reject_if, Safe-map_err, Safe-ok, Safe-ne_panic,
}
use app_elfloader.Word.Bits.{IsPowerOfTwo}
use app_elfloader.Elf.Header.{Phdr}
use app_elfloader.Elf.Header.Bounds.{EhdrFits, PhdrFits, Safe-parse_ehdr}
use app_elfloader.Elf.Source.{ImageSource, IsReader, IsSource, IsReader-IsSource}
use app_elfloader.Elf.Image.{Image, nothing_found, parse_image, check_overlaps}
use app_elfloader.Elf.Image.Table.{ValidEhdr, Safe-check_ehdr, Safe-check_table, Safe-read_table}
use app_elfloader.Elf.Image.Classify.{load_indices, IsLoad, InterpOk, Safe-classify}
use app_elfloader.Elf.Image.Order.{Chain, done, Safe-sort_loads, Safe-check_overlaps}

-- What every accepted image satisfies.
pub record IsWellFormed (native page_size : ℕ) (size : Option ℕ) (image : Image) : Type 0 where
  pub ehdr_fits : EhdrFits image.ehdr
  pub ehdr_valid : ValidEhdr native image.ehdr
  pub all_entries : length image.phdrs ≡ image.ehdr.e_phnum
  pub entries_fit : All PhdrFits image.phdrs
  -- The loads are the PT_LOAD entries, each once,
  pub loads_perm : Perm image.loads (load_indices 0 image.phdrs)
  pub loads_nonempty : image.loads ≢ []
  -- each loadable, in ascending order and on pages of its own.
  pub chain : Chain image.phdrs page_size size 0 image.loads
  pub interp_ok : InterpOk size image.interp

module _ (phdrs : List Phdr) {page_size : ℕ} (p : IsPowerOfTwo page_size) (size : Option ℕ) where
  Safe-check_every :
      (is : List ℕ)
      → All (IsLoad phdrs page_size size) is
      → Safe (λ _. Chain phdrs page_size size 0 is) (check_overlaps phdrs page_size is)
  unfolding check_overlaps
  Safe-check_every [] each = returns done
  Safe-check_every (i ∷ is) each =
      Safe-check_overlaps phdrs p size 0 i is each.0 each.1 (omega arith)

perm_ne_nil : {is js : List ℕ} → Perm is js → (length js == 0) ≡ false → is ≢ []
perm_ne_nil {is} {js} h e n =
    let same : [] ≡ js = Perm.nil-eq (subst (λ t. Perm t js) n h) in
    cc (subst (λ (t : List ℕ). (length t == 0) ≡ false) (sym same) e)

module _ (reserve : ℕ → Bool) (native : ℕ) {src : ImageSource} (source : IsSource src)
    {page_size : ℕ} (p : IsPowerOfTwo page_size) where
  pub Safe-parse_image :
      Safe (IsWellFormed native page_size src.size) (parse_image reserve native src page_size)
  unfolding parse_image
  Safe-parse_image =
      Safe-bind _ _ (Safe-map_err _ _ (source.fills 0 64 (omega arith) (omega arith)))
        λ raw raw_fits.
          Safe-bind _ _ (Safe-map_err _ _ (Safe-parse_ehdr raw raw_fits.1)) λ ehdr ehdr_fits.
            Safe-bind _ _ (Safe-check_ehdr native ehdr ehdr_fits.ident) λ _ ehdr_valid.
              Safe-bind _ _ (Safe-check_table src.size ehdr) λ _ table.
                Safe-bind _ _ (Safe-reject_if _ _) λ _ _.
                  Safe-bind _ _
                    (Safe-read_table src source ehdr.e_phoff ehdr.e_phentsize ehdr.e_phnum 0
                      (omega arith))
                    λ phdrs phs.
                      Safe-bind _ _
                        (Safe-classify p src.size phdrs 0 phdrs nothing_found
                          (λ j. ap (get_elem? phdrs) (omega arith)) phs.1 tt tt)
                        λ found c.
                          Safe-bind _ _ (Safe-reject_if (length found.loads == 0) _) λ _ nonempty.
                            Safe-bind _ _ (Safe-sort_loads phdrs p src.size found.loads c.each)
                              λ sorted s.
                                Safe-bind _ _ (Safe-check_every phdrs p src.size sorted s.1)
                                  λ _ chain. returns (record {
                                    ehdr_fits = ehdr_fits;
                                    ehdr_valid = ehdr_valid;
                                    all_entries = phs.0;
                                    entries_fit = phs.1;
                                    loads_perm = subst (Perm sorted) c.loads s.0;
                                    loads_nonempty = perm_ne_nil s.0 nonempty;
                                    chain = chain;
                                    interp_ok = c.interp;
                                  })

module _ (reserve : ℕ → Bool) (native : ℕ) {src : ImageSource} (reader : IsReader src)
    {page_size : ℕ} (p : IsPowerOfTwo page_size) where
  -- On a source of bytes, with a page size that is a power of two, `Image::parse` never panics, and an
  -- accepted image is well formed: its headers fit their fields, it has the native machine, it is
  -- ET_DYN or ET_EXEC, and it has all the entries that the header counts; its loads are exactly the
  -- indices of the PT_LOAD entries, at least one, each loadable, ascending and no two on one page; its
  -- interpreter entry, if any, is of a plausible length and inside a file of known size.
  pub parse_image-IsWellFormed :
      (parse_image reserve native src page_size ≢ panic)
      × ((image : Image)
          → parse_image reserve native src page_size ≡ ok image
          → IsWellFormed native page_size src.size image)
  parse_image-IsWellFormed = (Safe-ne_panic safe, λ image e. Safe-ok safe e)
    where
      safe :
          Safe (IsWellFormed native page_size src.size) (parse_image reserve native src page_size)
      safe = Safe-parse_image reserve native (IsReader-IsSource reader) p
