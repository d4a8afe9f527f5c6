-- ===== src/Elf/Reject.antt =====
-- rust/src/elf.rs: why an image was rejected.
use app_elfloader.Prelude.{String}
use app_elfloader.Err.{Error, enoexec, enotsup}

pub data Reject : Type 0 where
  not_elf : Reject
  unsupported : String → Reject
  malformed : String → Reject

-- `impl From<Reject> for Error`
unfoldable pub error_of : Reject → Error
error_of not_elf = enoexec
error_of (malformed s) = enoexec
error_of (unsupported s) = enotsup

unfoldable pub reject_str : Reject → String
reject_str not_elf = "not an ELF64 little-endian image"
reject_str (unsupported s) = s
reject_str (malformed s) = s
