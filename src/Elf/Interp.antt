-- ===== src/Elf/Interp.antt =====
-- rust/src/elf.rs: `Image::interp_path`, the path in a PT_INTERP entry.
use app_elfloader.Prelude.{
  ℕ, zero, suc, ◌≡◌, ◌≢◌, refl, sym, ap, ◌∙◌, Bool, not, Option, none, some, some-injective, ==_iff,
  List, [], ◌∷◌, ◌++◌, take, ◌==◌, if◌then◌else◌, arith, All, Bool-cases, inl, inr, subst,
}
use mathlib.Core.Option
use mathlib.Core.Bool.{false≢true}
use app_elfloader.Outcome.{
  Outcome, ok, err, panic, reject_if, ok_or, Safe, returns, fails, Safe-bind, Safe-reject_if,
  Safe-ok_or, Safe-ok, Safe-ne_panic, Safe-bind_eq, Safe-map, ◌>>=◌, ◌>>◌,
}
use app_elfloader.Err.{Error, einval, enomem, enoexec}
use app_elfloader.Elf.Header.{Phdr}
use app_elfloader.Elf.Source.{ImageSource, IsReader}
use app_elfloader.Elf.Image.{Image}

-- `buf.iter().position(|&b| b == 0)`
unfoldable pub nul_position : List ℕ → Option ℕ
nul_position [] = none
nul_position (b ∷ rest) = if b == 0 then some 0 else Option.map suc (nul_position rest)

unfoldable pub cut_at : Option ℕ → List ℕ → Outcome Error (List ℕ)
cut_at none buf = err enoexec
cut_at (some zero) buf = err enoexec
cut_at (some (suc n)) buf = ok (take (suc n) buf)

unfoldable pub interp_path : (ℕ → Bool) → Image → ImageSource → Outcome Error (List ℕ)
interp_path reserve image src = do
  ph ← ok_or image.interp einval
  reject_if (not (reserve ph.p_filesz)) enomem
  buf ← src.read_exact_at ph.p_offset ph.p_filesz
  cut_at (nul_position buf) buf

-- `path` is what stands before the first NUL of `buf`.
pub record IsPathOf (buf path : List ℕ) : Type 0 where
  pub nonempty : path ≢ []
  pub no_nul : All (λ b. b ≢ 0) path
  pub rest : List ℕ
  pub splits : buf ≡ path ++ 0 ∷ rest

map-suc : (o : Option ℕ) (n : ℕ) → Option.map suc o ≡ some n → (m : ℕ) × (o ≡ some m) × (n ≡ suc m)
map-suc none n h = cc
map-suc (some m) n h = (m, refl, sym (some-injective (suc m) n h))

-- The first `n` bytes have no NUL, and one follows them.
abbrev CutsAt : List ℕ → ℕ → Type 0
CutsAt buf n = All (λ b. b ≢ 0) (take n buf) × (rest : List ℕ) × (buf ≡ take n buf ++ 0 ∷ rest)

CutsAt-zero : (b : ℕ) (rest : List ℕ) (n : ℕ) → 0 ≡ n → b ≡ 0 → CutsAt (b ∷ rest) n
CutsAt-zero b rest zero e z = (tt, rest, ap (λ x. x ∷ rest) z)
CutsAt-zero b rest (suc n) e z = absurd (omega arith)

CutsAt-suc :
    (b : ℕ) (rest : List ℕ) (n m : ℕ) → n ≡ suc m → b ≢ 0 → CutsAt rest m → CutsAt (b ∷ rest) n
CutsAt-suc b rest zero m e nz later = absurd (omega arith)
CutsAt-suc b rest (suc n) m e nz later =
    let moved : CutsAt rest n = subst (CutsAt rest) (omega arith) later in
    ((nz, moved.0), moved.1, ap (λ x. b ∷ x) moved.2)

take_nul : (buf : List ℕ) (n : ℕ) → nul_position buf ≡ some n → CutsAt buf n
unfolding nul_position
take_nul [] n h = cc
take_nul (b ∷ rest) n h = elim (Bool-cases (b == 0)) [
  | inl t ↦ CutsAt-zero b rest n (some-injective 0 n (rw t at h)) ((==_iff b 0).0 t)
  | inr f ↦
      let (m, e, z) = map-suc (nul_position rest) n (rw f at h) in
      CutsAt-suc b rest n m z (λ e'. false≢true (sym f ∙ (==_iff b 0).1 e')) (take_nul rest m e)
]

some_first :
    (buf : List ℕ) (n : ℕ) (rest : List ℕ)
    → buf ≡ take (suc n) buf ++ 0 ∷ rest
    → take (suc n) buf ≢ []
some_first [] n rest h e = cc
some_first (b ∷ buf) n rest h e = cc

Safe-cut_at : (buf : List ℕ) → Safe (IsPathOf buf) (cut_at (nul_position buf) buf)
unfolding cut_at
Safe-cut_at buf = cases (nul_position buf) refl
  where
    cases : (o : Option ℕ) → nul_position buf ≡ o → Safe (IsPathOf buf) (cut_at o buf)
    cases none e = fails
    cases (some zero) e = fails
    cases (some (suc n)) e =
        let cut = take_nul buf (suc n) e in
        returns (record {
          nonempty = some_first buf n cut.1 cut.2;
          no_nul = cut.0;
          rest = cut.1;
          splits = cut.2;
        })

-- What the path comes from.
abbrev pub Found : Image → ImageSource → List ℕ → Type 0
Found image src path =
    (ph : Phdr) × (image.interp ≡ some ph)
    × (buf : List ℕ) × (src.read_exact_at ph.p_offset ph.p_filesz ≡ ok buf)
    × IsPathOf buf path

-- The path, for a reading of the entry that does not panic.
pub Safe-interp_path :
    (reserve : ℕ → Bool) (image : Image) (src : ImageSource)
    → ((ph : Phdr)
        → image.interp ≡ some ph
        → Safe (λ _. Unit {0}) (src.read_exact_at ph.p_offset ph.p_filesz))
    → Safe (Found image src) (interp_path reserve image src)
unfolding interp_path
Safe-interp_path reserve image src reads =
    Safe-bind _ _ (Safe-ok_or image.interp _ (λ ph e. e)) λ ph at.
      Safe-bind _ _ (Safe-reject_if _ _) λ _ _.
        Safe-bind_eq _ _ (reads ph at)
          λ buf read _. Safe-map (Safe-cut_at buf) λ path is_path. (ph, at, buf, read, is_path)

-- On a source of bytes `interp_path` does not panic. When it returns a path, the image has an interpreter
-- entry, and the path that it returns is not empty, has no NUL, and is what the bytes of the entry hold before
-- their first NUL.
pub interp_path-IsPathOf :
    (reserve : ℕ → Bool) (image : Image) (src : ImageSource)
    → IsReader src
    → (interp_path reserve image src ≢ panic)
      × ((path : List ℕ)
          → interp_path reserve image src ≡ ok path
          → (ph : Phdr) × (image.interp ≡ some ph)
            × (buf : List ℕ) × (src.read_exact_at ph.p_offset ph.p_filesz ≡ ok buf)
            × IsPathOf buf path)
interp_path-IsPathOf reserve image src reader =
    let safe =
      Safe-interp_path reserve image src
        λ ph at. Safe-map (reader.fills ph.p_offset ph.p_filesz) λ _ _. tt in
    (Safe-ne_panic safe, λ path e. Safe-ok safe e)
