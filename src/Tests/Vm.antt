-- ===== src/Tests/Vm.antt =====
-- A small address space that keeps the laws: memory as a function, with two places for mappings.
use app_elfloader.Prelude.{
  ℕ, zero, suc, ◌+◌, ◌-◌, ◌%◌, ◌<◌, ◌≡◌, refl, Bool, true, false, ◌&&◌, length, ltb, ◌==◌, ==_iff,
  if◌then◌else◌, arith, Bool-cases, inl, inr, ap, sym, subst, ltb→lt, ◌∙◌,
}
use native.Mathlib.Nat.{mod_self}
use app_elfloader.Outcome.{Outcome, ok, err}
use app_elfloader.Err.{Error, enomem}
use app_elfloader.Action.{Action, Post, returned, failed, Post-map}
use app_elfloader.Word.{u64_end}
use app_elfloader.Word.Align.{down-mod}
use app_elfloader.Tests.{page}
use app_elfloader.Sys.AppStack.{byte_or}
use app_elfloader.Loader.{Vm, Where, MapSrc, anywhere, hint, exact, anon}
use app_elfloader.Loader.Range.{changed-inside, changed-outside}
use app_elfloader.Loader.Memory.{
  Cell, free, held, stored, datum_of, changed, within, with_prot, with_datum, is_writable, AllFree,
  AllWritable, SameOutside, IsVm,
}

abbrev pub is_free : Cell → Bool
is_free free = true
is_free (held prot d) = false

unfoldable pub all_free : (ℕ → Cell) → ℕ → ℕ → Bool
all_free v addr zero = true
all_free v addr (suc n) =
    let rest = all_free v addr n in if is_free (v (addr + n)) then rest else false

is_free-eq : (c : Cell) → is_free c ≡ true → c ≡ free
is_free-eq free h = refl
is_free-eq (held prot d) h = cc

all_free-AllFree : (v : ℕ → Cell) (addr len : ℕ) → all_free v addr len ≡ true → AllFree v addr len
unfolding all_free
all_free-AllFree v addr zero h x inside = absurd (nowhere inside)
  where
    nowhere : within addr 0 x ≡ true → ⊥
    nowhere i = ground arith
all_free-AllFree v addr (suc n) h x inside = elim (Bool-cases (is_free (v (addr + n)))) [
  | inl t ↦ elim (Bool-cases (x == addr + n)) [
    | inl last ↦ ap v ((==_iff x (addr + n)).0 last) ∙ is_free-eq (v (addr + n)) t
    | inr before ↦ all_free-AllFree v addr n (rw t at h) x (ground arith)
  ]
  | inr f ↦ absurd (grind (arith, f))
]

-- A free range at `addr`, filled with `c`.
unfoldable pub take_range : (ℕ → Cell) → ℕ → ℕ → Cell → Outcome Error ℕ × (ℕ → Cell)
unfolding all_free
take_range v addr len c =
    if all_free v addr len && ltb (addr + len) u64_end
    then (ok addr, changed addr len (λ k _. c) v)
    else (err enomem, v)

abbrev pub first_place : Bool → ℕ
first_place true = 65536
first_place false = 262144

first_place-aligned : (b : Bool) → first_place b % page ≡ 0
first_place-aligned true = refl
first_place-aligned false = refl

unfoldable pub map_at : Where → ℕ → ℕ → MapSrc → Action (ℕ → Cell) ℕ
unfolding take_range
map_at anywhere len prot src v =
    take_range v (first_place (all_free v 65536 len)) len (held prot (stored 0))
map_at (hint a) len prot src v = take_range v (a - a % page) len (held prot (stored 0))
map_at (exact a) len prot src v = (ok a, changed a len (λ k _. held prot (datum_of src k)) v)

abbrev pub small_vm : Bool → Vm (ℕ → Cell)
small_vm files = record {
  page_size = page;
  can_map_files = files;
  map = map_at;
  unmap = λ addr len v. (ok tt, changed addr len (λ k _. free) v);
  protect = λ addr len prot v. (ok tt, changed addr len (λ k c. with_prot prot c) v);
  write = λ addr bytes v.
      (ok tt, changed addr (length bytes) (λ k c. with_datum (stored (byte_or bytes k 0)) c) v);
  zero_fill = λ addr len v. (ok tt, changed addr len (λ k c. with_datum (stored 0) c) v);
  icache_sync = λ addr len v. v;
  alloc_aligned = λ align len v. take_range v align len (held 3 (stored 170));
  free_aligned = λ addr len v. changed addr len (λ k _. free) v;
}

Post-take_range :
    (v : ℕ → Cell) (addr len : ℕ) (c : Cell)
    → Post
        (λ got v'.
          (got ≡ addr)
          × (addr + len < u64_end)
          × AllFree v addr len
          × ((x : ℕ) → v' x ≡ changed addr len (λ k _. c) v x))
        (λ e v'. (x : ℕ) → v' x ≡ v x)
        (take_range v addr len c)
unfolding take_range
Post-take_range v addr len c = elim (Bool-cases (all_free v addr len)) [
  | inl t ↦ elim (Bool-cases (ltb (addr + len) u64_end)) [
    | inl fits ↦
        rw t (rw fits (returned (refl, ltb→lt _ _ fits, all_free-AllFree v addr len t, λ x. refl)))
    | inr far ↦ rw t (rw far (failed (λ x. refl)))
  ]
  | inr f ↦ rw f (failed (λ x. refl))
]

pub small_vm-IsVm : (files : Bool) → IsVm (small_vm files) (λ v. v)
unfolding map_at
small_vm-IsVm files = record {
  maps_exactly = λ v addr len prot src a l. returned (refl, λ x. refl);
  maps_somewhere = somewhere;
  unmaps = λ v addr len a l. returned (λ x. refl);
  protects = λ v addr len prot a l. returned (λ x. refl);
  clears = λ v addr len w. returned (λ x. refl);
  stores = λ v addr bytes w. returned (λ x. refl);
  syncs = λ v addr len x. refl;
  allocates = λ v align len.
      Post-map (Post-take_range v align len (held 3 (stored 170)))
        (λ got v' (same, fits, was_free, taken).
          subst
            (λ g.
              (g % align ≡ 0)
              × (g + len < u64_end)
              × AllFree v g len
              × AllWritable v' g len
              × SameOutside g len v v')
            (sym same)
            (
              mod_self align,
              fits,
              was_free,
              λ x h.
                  ap is_writable
                    (taken x ∙ changed-inside align len (λ k _. held 3 (stored 170)) v x h),
              λ x h. taken x ∙ changed-outside align len (λ k _. held 3 (stored 170)) v x h,
            ))
        (λ e v' same. same);
  frees = λ v addr len x. refl;
}
  where
    taken_at :
        (v : ℕ → Cell) (addr len prot : ℕ)
        → addr % page ≡ 0
        → Post
            (λ got v'.
              (got % page ≡ 0)
              × (got + len < u64_end)
              × AllFree v got len
              × ((x : ℕ) → v' x ≡ changed got len (λ k _. held prot (stored 0)) v x))
            (λ e v'. (x : ℕ) → v' x ≡ v x)
            (take_range v addr len (held prot (stored 0)))
    taken_at v addr len prot aligned =
        Post-map (Post-take_range v addr len (held prot (stored 0)))
          (λ got v' (same, fits, was_free, taken).
            subst
              (λ g.
                (g % page ≡ 0)
                × (g + len < u64_end)
                × AllFree v g len
                × ((x : ℕ) → v' x ≡ changed g len (λ k _. held prot (stored 0)) v x))
              (sym same) (aligned, fits, was_free, taken))
          (λ e v' same. same)

    somewhere :
        (v : ℕ → Cell) (place : Where) (len prot : ℕ)
        → ((addr : ℕ) → ¬ (place ≡ exact addr))
        → len % page ≡ 0
        → Post
            (λ got v'.
              (got % page ≡ 0)
              × (got + len < u64_end)
              × AllFree v got len
              × ((x : ℕ) → v' x ≡ changed got len (λ k _. held prot (stored 0)) v x))
            (λ e v'. (x : ℕ) → v' x ≡ v x)
            (map_at place len prot anon v)
    somewhere v anywhere len prot n l =
        taken_at v (first_place (all_free v 65536 len)) len prot
          (first_place-aligned (all_free v 65536 len))
    somewhere v (hint a) len prot n l =
        taken_at v (a - a % page) len prot (down-mod page (omega arith) a)
    somewhere v (exact a) len prot n l = absurd (n a refl)
