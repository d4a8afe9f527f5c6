-- ===== src/Layout/Plan/Place.antt =====
-- Where the image goes: the alignment, the reservation and the bias.
use app_elfloader.Prelude.{
  ℕ, ◌+◌, ◌-◌, ◌%◌, ◌≤◌, ◌<◌, ◌≡◌, refl, ap, ◌∙◌, min, max, Option, arith, subst,
}
use native.Mathlib.Nat.{mod_self, zero-mod}
use native.Mathlib.Decide.{dec_le}
use app_elfloader.Outcome.{
  ok, Safe, returns, Safe-bind, Safe-bind_is, Safe-bind_eq, Safe-ok_or, Safe-ok, Safe-map,
  >>=-eq-ok, ok_or-eq-ok,
}
use app_elfloader.Word.{
  u64_end, checked_add, checked_sub, checked_add-eq-some, checked_sub-eq-some, Safe-sub64,
  Safe-add64,
}
use app_elfloader.Word.Bits.{IsPowerOfTwo, IsPowerOfTwo-pos, IsPowerOfTwo-mod}
use app_elfloader.Word.Align.{up, up-mod, up-lt, le-up, multiples_apart, sub-mod_zero, add-mod_zero}
use app_elfloader.Elf.Align.{Safe-round}
use app_elfloader.Elf.Image.{Image}
use app_elfloader.Elf.Image.Parse.{IsWellFormed}
use app_elfloader.Elf.Span.{va_span}
use app_elfloader.Elf.Span.Cover.{Safe-load_align, Safe-va_span}
use app_elfloader.Layout.Plan.{fixed, at, Placed, place, seg_align, reservation_len, max_seg_align}

-- The alignment of a plan: a power of two, no less than the page.
pub record IsSegAlign (page_size align : ℕ) : Type 0 where
  pub is_power : IsPowerOfTwo align
  pub above_page : page_size ≤ align

max_seg_align-IsPowerOfTwo : IsPowerOfTwo max_seg_align
max_seg_align-IsPowerOfTwo = record { exponent = 21; fits = omega arith; is_power = refl }

clamp_power :
    {a page_size : ℕ}
    → IsPowerOfTwo a
    → IsPowerOfTwo page_size
    → IsPowerOfTwo (max (min a max_seg_align) page_size)
clamp_power {a} {page_size} p q = elim (dec_le (min a max_seg_align) page_size) [
  | yes small ↦ subst IsPowerOfTwo (omega arith) q
  | no large ↦ elim (dec_le a max_seg_align) [
    | yes below ↦ subst IsPowerOfTwo (omega arith) p
    | no above ↦ subst IsPowerOfTwo (omega arith) max_seg_align-IsPowerOfTwo
  ]
]

-- Where a plan puts the span `[lo, hi)`, and that it stays in the reservation.
pub record IsPlaced (page_size lo hi : ℕ) (x : Placed) : Type 0 where
  pub aligned : x.bias % page_size ≡ 0
  pub above : x.reserve_addr ≤ lo + x.bias
  pub below : hi + x.bias ≤ x.reserve_addr + x.reserve_len
  pub fits : x.reserve_addr + x.reserve_len < u64_end

module _ {page_size : ℕ} (p : IsPowerOfTwo page_size) (lo hi align raw : ℕ)
    (al : IsSegAlign page_size align) (lo_aligned : lo % page_size ≡ 0) (ordered : lo ≤ hi) where
  -- The slack of the reservation covers the rounding.
  rounding_fits : raw % page_size ≡ 0 → up raw align + page_size ≤ raw + align
  rounding_fits h =
      multiples_apart page_size (IsPowerOfTwo-pos p) (up raw align) (raw + align)
        (IsPowerOfTwo-mod p al.is_power al.above_page (up raw align)
          (up-mod align (IsPowerOfTwo-pos al.is_power) raw))
        (add-mod_zero page_size (IsPowerOfTwo-pos p) raw align h
          (IsPowerOfTwo-mod p al.is_power al.above_page align (mod_self align)))
        (up-lt align (IsPowerOfTwo-pos al.is_power) raw)

  pub Safe-place_at :
      raw % page_size ≡ 0
      → raw + (hi - lo + (align - page_size)) < u64_end
      → Safe
          (λ x.
            IsPlaced page_size lo hi x
            × ((x.reserve_addr ≡ raw)
                × (x.reserve_len ≡ hi - lo + (align - page_size))
                × (lo + x.bias ≡ up raw align)))
          (place (at raw) page_size lo (hi - lo) align)
  unfolding place
  Safe-place_at h fits = Safe-round al.is_power raw _ _ λ _.
      Safe-bind_eq _ _
        (Safe-ok_or (checked_sub (up raw align) lo) _ (λ b e. checked_sub-eq-some _ _ e))
        λ bias _ b. Safe-bind_is _ _ (Safe-sub64 align page_size al.above_page) (
          Safe-bind_is _ _ (Safe-add64 (hi - lo) (align - page_size) (omega arith)) (
            returns (
              record {
                aligned =
                    ap (λ (t : ℕ). t % page_size) b.0
                    ∙ sub-mod_zero page_size (IsPowerOfTwo-pos p) (up raw align) lo
                        (IsPowerOfTwo-mod p al.is_power al.above_page (up raw align)
                          (up-mod align (IsPowerOfTwo-pos al.is_power) raw))
                        lo_aligned;
                above = omega (arith, b.0, b.1, le-up align (IsPowerOfTwo-pos al.is_power) raw);
                below = omega (arith, b.0, b.1, rounding_fits h, al.above_page);
                fits = fits;
              },
              (refl, refl, omega (arith, b.0, b.1)),
            )))

pub Safe-place_fixed :
    (page_size lo hi align : ℕ)
    → lo ≤ hi
    → hi < u64_end
    → Safe
        (λ x.
          IsPlaced page_size lo hi x
          × ((x.bias ≡ 0) × (x.reserve_addr ≡ lo) × (x.reserve_addr + x.reserve_len ≡ hi)))
        (place fixed page_size lo (hi - lo) align)
unfolding place
Safe-place_fixed page_size lo hi align ordered fits = returns (
  record {
    aligned = zero-mod page_size;
    above = omega arith;
    below = omega arith;
    fits = omega arith;
  },
  (refl, refl, omega arith),
)

module _ {native page_size : ℕ} (p : IsPowerOfTwo page_size) {size : Option ℕ} {image : Image}
    (w : IsWellFormed native page_size size image) where
  pub Safe-seg_align : Safe (IsSegAlign page_size) (seg_align image page_size)
  unfolding seg_align
  Safe-seg_align =
      Safe-bind _ _ (Safe-load_align p w)
        λ a h. returns (record { is_power = clamp_power h.0 p; above_page = omega arith })

  -- What a reservation of known length went through.
  pub reservation_len-eq-ok :
      {len : ℕ}
      → reservation_len image page_size ≡ ok len
      → (lo hi align : ℕ) × (va_span image page_size ≡ ok (lo, hi))
        × (seg_align image page_size ≡ ok align)
        × (len ≡ hi - lo + (align - page_size))
  unfolding reservation_len
  reservation_len-eq-ok e =
      let ((lo, hi), spans, e1) = >>=-eq-ok _ _ e in
      let (align, aligns, e2) = >>=-eq-ok _ _ e1 in
      let (span, subtracts, e3) = >>=-eq-ok _ _ e2 in
      let (slack, slacks, e4) = >>=-eq-ok _ _ e3 in
      let covered = checked_sub-eq-some hi lo (ok_or-eq-ok _ _ subtracts) in
      let sum = checked_add-eq-some span slack (ok_or-eq-ok _ _ e4) in
      let room =
        Safe-ok (Safe-sub64 align page_size (Safe-ok Safe-seg_align aligns).above_page) slacks in
      (lo, hi, align, spans, aligns, omega arith)

  -- The reservation is whole pages.
  pub Safe-reservation_len : Safe (λ len. len % page_size ≡ 0) (reservation_len image page_size)
  unfolding reservation_len
  Safe-reservation_len =
      let pos = IsPowerOfTwo-pos p in
      Safe-bind _ _ (Safe-va_span p w) λ (lo, hi) span. Safe-bind _ _ Safe-seg_align λ align al.
        Safe-bind _ _ (Safe-ok_or (checked_sub hi lo) _ (λ c e. checked_sub-eq-some _ _ e))
          λ spanned is_span. Safe-bind_is _ _ (Safe-sub64 align page_size al.above_page) (
            Safe-map
              (Safe-ok_or (checked_add spanned (align - page_size)) _
                (λ c e. (checked_add-eq-some _ _ e).0))
              λ len is_len.
                ap (λ (t : ℕ). t % page_size)
                  (is_len ∙ ap (λ (t : ℕ). t + (align - page_size)) is_span.0)
                ∙ add-mod_zero page_size pos (hi - lo) (align - page_size)
                    (sub-mod_zero page_size pos hi lo span.hi_aligned span.lo_aligned)
                    (sub-mod_zero page_size pos align page_size
                      (IsPowerOfTwo-mod p al.is_power al.above_page align (mod_self align))
                      (mod_self page_size)))
