-- ===== src/Prelude/Errors.antt =====
-- `anyhow::Error` and the I/O errors under it.
use vm_authn_scope.Prelude.Text.{Text}
use Prim.Native.Nat.{ℕ}
use mathlib.Core.List.{List}

abbrev pub Bytes : Type 0
Bytes = List ℕ

-- The I/O errors that the program tells apart; `other` has the error number.
pub data IoError : Type 0 where
  unexpected_eof broken_pipe addr_in_use not_found : IoError
  other : ℕ → IoError

-- `anyhow::Error`
pub data Error : Type 0 where
  io : IoError → Error
  json : Text → Error
  message : Text → Error
  context : Text → Error → Error

-- `to_string`: a context hides what it was put on. The texts of I/O errors are the system's.
unfoldable pub to_string : (IoError → Text) → Error → Text
to_string io_text (io e) = io_text e
to_string io_text (json t) = t
to_string io_text (message t) = t
to_string io_text (context t e) = t
