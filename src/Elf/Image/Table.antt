-- ===== src/Elf/Image/Table.antt =====
-- The stages of `Image::parse` up to the program header table.
use app_elfloader.Prelude.{
  ℕ, zero, suc, ◌+◌, ◌*◌, ◌≤◌, ◌<◌, ◌≡◌, ◌⊎◌, List, length, Option, arith, not, ◌&&◌, ltb, ◌==◌,
  All, refl,
}
use app_elfloader.Outcome.{
  Safe, returns, Safe-bind, Safe-index_at, Safe-reject_if, Safe-ok_or, Safe-map_err, Safe-map,
}
use app_elfloader.Word.{
  u64_end, checked_add, checked_mul, checked_add-eq-some, checked_mul-eq-some, Safe-add64,
  Safe-mul64,
}
use app_elfloader.Elf.Header.{Ehdr, phdr_size, et_exec, et_dyn, phnum_max}
use app_elfloader.Elf.Header.Bounds.{PhdrFits, Safe-parse_phdr}
use app_elfloader.Elf.Source.{ImageSource, IsSource}
use app_elfloader.Elf.Load.{Safe-check_end}
use app_elfloader.Elf.Image.{check_ident, check_ehdr, check_table, read_table}

Safe-check_ident : (ident : List ℕ) → length ident ≡ 16 → Safe (λ _. Unit {0}) (check_ident ident)
unfolding check_ident
Safe-check_ident ident h = Safe-bind _ _ (Safe-index_at ident 4 (omega arith)) λ _ _.
    Safe-bind _ _ (Safe-index_at ident 5 (omega arith)) λ _ _.
      Safe-bind _ _ (Safe-index_at ident 6 (omega arith)) λ _ _.
        Safe-bind _ _ (Safe-reject_if _ _) λ _ _.
          Safe-bind _ _ (Safe-index_at ident 7 (omega arith))
            λ _ _. Safe-map (Safe-reject_if _ _) λ _ _. tt

-- What the executable header of an accepted image satisfies.
pub record ValidEhdr (native : ℕ) (ehdr : Ehdr) : Type 0 where
  pub machine : ehdr.e_machine ≡ native
  pub type : (ehdr.e_type ≡ et_dyn) ⊎ (ehdr.e_type ≡ et_exec)
  pub some_entries : 0 < ehdr.e_phnum
  pub few_entries : ehdr.e_phnum ≤ phnum_max
  pub entry_size : phdr_size ≤ ehdr.e_phentsize

pub Safe-check_ehdr :
    (native : ℕ) (ehdr : Ehdr)
    → length ehdr.ident ≡ 16
    → Safe (λ _. ValidEhdr native ehdr) (check_ehdr native ehdr)
unfolding check_ehdr
Safe-check_ehdr native ehdr h = Safe-bind _ _ (Safe-check_ident ehdr.ident h) λ _ _.
    Safe-bind _ _ (Safe-reject_if (not (ehdr.e_machine == native)) _) λ _ machine.
      Safe-bind _ _ (Safe-reject_if (not (ehdr.e_type == et_dyn) && not (ehdr.e_type == et_exec)) _)
        λ _ type. Safe-bind _ _ (Safe-reject_if _ _) λ _ _.
          Safe-bind _ _ (Safe-reject_if _ _) λ _ _.
            Safe-bind _ _ (Safe-reject_if (ehdr.e_phnum == 0) _) λ _ some_entries.
              Safe-bind _ _ (Safe-reject_if (ltb phnum_max ehdr.e_phnum) _) λ _ few_entries.
                Safe-map (Safe-reject_if (ltb ehdr.e_phentsize phdr_size) _) λ _ entry_size.
                  record {
                    machine = ground arith;
                    type = ground arith;
                    some_entries = ground arith;
                    few_entries = ground arith;
                    entry_size = ground arith;
                  }

pub Safe-check_table :
    (size : Option ℕ) (ehdr : Ehdr)
    → Safe (λ _. ehdr.e_phoff + ehdr.e_phnum * ehdr.e_phentsize < u64_end) (check_table size ehdr)
unfolding check_table
Safe-check_table size ehdr =
    Safe-bind _ _ (Safe-ok_or (checked_mul ehdr.e_phnum ehdr.e_phentsize) _ (λ c e. e))
      λ len len_fits.
        Safe-bind _ _ (Safe-ok_or (checked_add ehdr.e_phoff len) _ (λ c e. e)) λ end end_fits.
          Safe-map (Safe-check_end size end _) λ _ _. omega (
            arith,
            checked_mul-eq-some ehdr.e_phnum ehdr.e_phentsize len_fits,
            checked_add-eq-some ehdr.e_phoff len end_fits,
          )

module _ (src : ImageSource) (source : IsSource src) (phoff phentsize : ℕ) where
  -- With a table that ends below 2 ^ 64 the offsets do not overflow, and every entry that is read
  -- fits its fields.
  pub Safe-read_table :
      (left i : ℕ)
      → phoff + (i + left) * phentsize < u64_end
      → Safe (λ phs. (length phs ≡ left) × All PhdrFits phs) (read_table src phoff phentsize left i)
  unfolding read_table
  Safe-read_table zero i h = returns (refl, tt)
  Safe-read_table (suc left) i h =
      Safe-bind _ _ (Safe-mul64 i phentsize (grind arith)) λ distance d.
        Safe-bind _ _ (Safe-add64 phoff distance (grind arith)) λ off o.
          Safe-bind _ _ (Safe-map_err _ _ (source.fills off phdr_size (grind arith) (omega arith)))
            λ ent e. Safe-bind _ _ (Safe-map_err _ _ (Safe-parse_phdr ent e.1)) λ ph ph_fits.
              Safe-bind _ _ (Safe-read_table left (i + 1) (grind arith))
                λ rest r. returns (omega arith, (ph_fits, r.1))
