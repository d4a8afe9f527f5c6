-- ===== src/Layout/Prot.antt =====
-- The protection bits of a segment.
use app_elfloader.Prelude.{ℕ, ◌≤◌, ◌≡◌, refl, bit_and, bit_or, Bool, true, false, not, ◌==◌, arith}
use app_elfloader.Elf.Header.{Phdr, is_read, is_write, is_exec}
use app_elfloader.Layout.Plan.{prot_of, prot_read, prot_write, prot_exec, prot_none, with_bit}

bits_of : Bool → Bool → Bool → ℕ
bits_of r w x = with_bit x prot_exec (with_bit w prot_write (with_bit r prot_read prot_none))

bits_exact :
    (r w x : Bool)
    → (not (bit_and (bits_of r w x) prot_read == 0) ≡ r)
      × (not (bit_and (bits_of r w x) prot_write == 0) ≡ w)
      × (not (bit_and (bits_of r w x) prot_exec == 0) ≡ x)
      × (bits_of r w x ≤ 7)
unfolding bits_of
bits_exact true true true = (refl, refl, refl, omega arith)
bits_exact true true false = (refl, refl, refl, omega arith)
bits_exact true false true = (refl, refl, refl, omega arith)
bits_exact true false false = (refl, refl, refl, omega arith)
bits_exact false true true = (refl, refl, refl, omega arith)
bits_exact false true false = (refl, refl, refl, omega arith)
bits_exact false false true = (refl, refl, refl, omega arith)
bits_exact false false false = (refl, refl, refl, omega arith)

-- A segment is mapped readable exactly if PF_R is set in its flags, writable exactly if PF_W is,
-- executable exactly if PF_X is, and no other protection bit is set.
pub prot_of_exact :
    (ph : Phdr)
    → (not (bit_and (prot_of ph) prot_read == 0) ≡ is_read ph)
      × (not (bit_and (prot_of ph) prot_write == 0) ≡ is_write ph)
      × (not (bit_and (prot_of ph) prot_exec == 0) ≡ is_exec ph)
      × (prot_of ph ≤ 7)
unfolding prot_of bits_of
prot_of_exact ph = bits_exact (is_read ph) (is_write ph) (is_exec ph)

wide_bits : (r w x : Bool) → (bit_and (bit_or (bits_of r w x) prot_write) prot_write == 0) ≡ false
unfolding bits_of
wide_bits true true true = refl
wide_bits true true false = refl
wide_bits true false true = refl
wide_bits true false false = refl
wide_bits false true true = refl
wide_bits false true false = refl
wide_bits false false true = refl
wide_bits false false false = refl

-- The write window makes a segment writable.
pub prot_of_wide : (ph : Phdr) → (bit_and (bit_or (prot_of ph) prot_write) prot_write == 0) ≡ false
unfolding prot_of bits_of
prot_of_wide ph = wide_bits (is_read ph) (is_write ph) (is_exec ph)
