-- ===== src/Tests/Binfmt.antt =====
-- The theorem on the results of the binfmt handler at a file that is not there.
use app_elfloader.Prelude.{◌≡◌, arith}
use app_elfloader.Prelude.Int.{ℤ}
use app_elfloader.Outcome.{ok, err}
use app_elfloader.Err.{errno_of}
use app_elfloader.Binfmt.{binfmt_result, Tells, refused, binfmt_result-Tells}

binfmt_result-Tells_example :
    (rc : ℤ) × (binfmt_result (err (errno_of 2)) ≡ ok rc) × Tells (err (errno_of 2)) rc
binfmt_result-Tells_example =
    binfmt_result-Tells (err (errno_of 2)) (refused 2 (omega arith) (omega arith))
