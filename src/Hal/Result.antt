-- ===== src/Hal/Result.antt =====
-- What a function returns besides its `blusys_err_t`.
use blusys.Hal.Error.{BlusysErr}

-- BLUSYS_OK with what the function writes through its pointers, or an error.
pub data Returned (A : Type 0) : Type 0 where
  done : A → Returned A
  fail : BlusysErr → Returned A
