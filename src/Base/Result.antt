-- ===== src/Base/Result.antt =====
-- The error codes of VinixOS/kernel/include/syscalls.h, and what a call that may fail returns.

-- E_FAIL, E_INVAL, E_ARG, E_PTR, E_PERM, E_NOENT, E_BADF, E_MFILE
pub data Errno : Type 0 where
  fail inval arg ptr perm noent badf mfile : Errno

-- A negative return value is an error; E_OK and the other values are answers.
pub data Result {ℓ} (A : Type ℓ) : Type ℓ where
  ok : A → Result A
  err : Errno → Result A
