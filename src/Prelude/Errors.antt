-- ===== src/Prelude/Errors.antt =====
-- The error numbers that the drivers return, and the `int` result of a kernel function.
use mathlib.Core.Bool.{Bool, true, false}
use mathlib.Core.Option.{Option, none, some}

-- `other` stands for any error that only code outside the repository returns.
pub data Errno : Type 0 where
  enoent enomem enotconn edeadlk ebusy eagain einval enodev enolink eio enotsupp other : Errno

-- An `int` return value: `none` is 0, `some e` is the negated error number.
abbrev pub Ret : Type 0
Ret = Option Errno

abbrev pub is_ok : Ret → Bool
is_ok none = true
is_ok (some e) = false

abbrev pub is_eagain : Ret → Bool
is_eagain (some Errno.eagain) = true
is_eagain _ = false

abbrev pub is_edeadlk : Ret → Bool
is_edeadlk (some Errno.edeadlk) = true
is_edeadlk _ = false
