-- ===== src/Err.antt =====
-- rust/src/err.rs: errors as POSIX error numbers.
use app_elfloader.Prelude.{
  ℕ, zero, suc, ◌-◌, ◌%◌, ◌<◌, ◌≡◌, String, ltb, ◌==◌, if◌then◌else◌, arith, List, [], ◌∷◌,
}
use app_elfloader.Prelude.Int.{ℤ, pos, negsuc, neg}
use app_elfloader.Outcome.{Outcome, ok, err, panic, ◌>>=◌}

-- `errno` is an i32.
pub record Error : Type 0 where
  pub errno : ℤ

abbrev pub errno_of : ℕ → Error
errno_of n = record { errno = pos n }

abbrev pub eperm : Error
eperm = errno_of 1

abbrev pub enoent : Error
enoent = errno_of 2

abbrev pub eio : Error
eio = errno_of 5

abbrev pub e2big : Error
e2big = errno_of 7

abbrev pub enoexec : Error
enoexec = errno_of 8

abbrev pub ebadf : Error
ebadf = errno_of 9

abbrev pub enomem : Error
enomem = errno_of 12

abbrev pub efault : Error
efault = errno_of 14

abbrev pub einval : Error
einval = errno_of 22

abbrev pub enospc : Error
enospc = errno_of 28

abbrev pub erange : Error
erange = errno_of 34

abbrev pub enosys : Error
enosys = errno_of 38

abbrev pub eloop : Error
eloop = errno_of 40

abbrev pub enotsup : Error
enotsup = errno_of 95

descriptions : List (ℕ × String)
descriptions =
    (1, "operation not permitted")
    ∷ (2, "no such file or directory")
    ∷ (5, "input/output error")
    ∷ (7, "argument list too long")
    ∷ (8, "exec format error")
    ∷ (9, "bad file descriptor")
    ∷ (12, "cannot allocate memory")
    ∷ (14, "bad address")
    ∷ (22, "invalid argument")
    ∷ (28, "no space left on device")
    ∷ (34, "numerical result out of range")
    ∷ (38, "function not implemented")
    ∷ (40, "too many levels of symbolic links")
    ∷ (95, "operation not supported")
    ∷ []

find_description : ℕ → List (ℕ × String) → String
find_description n [] = "unknown error"
find_description n ((v, d) ∷ rest) = if n == v then d else find_description n rest

unfoldable as_str : Error → String
unfolding descriptions find_description
as_str e = elim e.errno [ pos n ↦ find_description n descriptions | negsuc n ↦ "unknown error" ]

-- `-self.0`, which overflows at i32::MIN alone.
unfoldable pub as_neg {ℓ} : {E : Type ℓ} → Error → Outcome E ℤ
as_neg e = elim e.errno [
  | pos n ↦ ok (neg (pos n))
  | negsuc n ↦ if n == 2147483647 then panic else ok (pos (suc n))
]

-- `as i32` of a value that is not negative.
abbrev pub as_i32 : ℕ → ℤ
as_i32 n = let w = n % 4294967296 in if ltb w 2147483648 then pos w else negsuc (4294967296 - w - 1)

-- The C value is an i64; `-rc` overflows at i64::MIN alone.
unfoldable pub from_c : ℤ → Outcome Error ℤ
from_c (pos n) = ok (pos n)
from_c (negsuc n) =
    if n == 9223372036854775807 then panic else err (record { errno = as_i32 (suc n) })

-- A positive error number that is handed to C by `as_neg` comes back from `from_c` as the same error.
pub from_c-as_neg :
    (e : ℕ) → 0 < e → e < 2147483648 → (as_neg (errno_of e) >>= from_c) ≡ err (errno_of e)
unfolding as_neg from_c ◌>>=◌
from_c-as_neg zero h k = elim h [ ]
from_c-as_neg (suc n) h k = ground arith
