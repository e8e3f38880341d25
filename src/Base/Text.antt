-- ===== src/Base/Text.antt =====
-- Error messages. The code passes them on and asks only whether one is empty, so a message is the
-- empty one, a literal, or what Socket::formatErrMsg makes of a call's name and an error number.
use Prim.Native.Nat.{ℕ}
use Prim.Native.String.{String}
use mathlib.Core.Bool.{Bool, true, false}

pub data ErrMsg : Type 0 where
  empty : ErrMsg
  says : String → ErrMsg
  sys_failed : String → ℕ → ErrMsg

abbrev pub is_empty : ErrMsg → Bool
is_empty empty = true
is_empty (says s) = false
is_empty (sys_failed s e) = false
