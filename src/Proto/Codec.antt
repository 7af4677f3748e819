-- ===== src/Proto/Codec.antt =====
-- libs/rust-libs/authn-scope-proto/src/codec.rs: `send_json` and `recv_json` over a byte stream.
-- `serde_json` is a parameter (`Json`). A stream is what will arrive on it before its end, what
-- has been written to it, and how many more bytes the peer takes before the connection breaks.
pub mod Frame
pub mod Lawful
pub mod Reordered
use vm_authn_scope.Prelude.{
  ℕ, suc, ◌+◌, ◌-◌, ◌*◌, ◌/◌, ◌%◌, ◌^◌, List, [], ◌∷◌, ◌++◌, length, take, drop, ltb, leb,
  if◌then◌else◌,
}
use vm_authn_scope.Prelude.Result.{Result, ok, err, map_err}
use vm_authn_scope.Prelude.Io.{Io, pure, fail, lift, ◌>>=◌, ◌>>◌}
use vm_authn_scope.Prelude.Text.{Text, lit, show}
use vm_authn_scope.Prelude.Errors.{Bytes, unexpected_eof, broken_pipe, Error, io, json, message}

-- `serde_json` at a type.
pub record Json (T : Type 0) : Type 0 where
  pub to_vec : T → Result Text Bytes
  pub from_slice : Bytes → Result Text T

pub record Stream : Type 0 where
  pub incoming : Bytes
  pub outgoing : Bytes
  pub room : ℕ

abbrev pub max_msg_bytes : ℕ
max_msg_bytes = 4 * 1024 * 1024

-- `u32::to_be_bytes` and `u32::from_be_bytes`
unfoldable pub to_be_bytes : ℕ → Bytes
to_be_bytes n = (n / 2 ^ 24 % 256) ∷ (n / 2 ^ 16 % 256) ∷ (n / 2 ^ 8 % 256) ∷ (n % 256) ∷ []

unfoldable pub from_be_bytes : Bytes → ℕ
from_be_bytes (a ∷ b ∷ c ∷ d ∷ []) = a * 2 ^ 24 + b * 2 ^ 16 + c * 2 ^ 8 + d
from_be_bytes _ = 0

-- `write_all`: where the connection breaks, the bytes before that are gone.
unfoldable pub write_all : Bytes → Io Stream Error (Unit {0})
write_all bytes s =
    if leb (length bytes) s.room
    then (ok tt, record s { outgoing = s.outgoing ++ bytes; room = s.room - length bytes })
    else (err (io broken_pipe), record s { outgoing = s.outgoing ++ take s.room bytes; room = 0 })

-- `read_exact`: a stream that ends too early has been read to its end.
unfoldable pub read_exact : ℕ → Io Stream Error Bytes
read_exact n s =
    if leb n (length s.incoming)
    then (ok (take n s.incoming), record s { incoming = drop n s.incoming })
    else (err (io unexpected_eof), record s { incoming = [] })

-- "incoming frame too large: {} bytes (max {})"
unfoldable pub too_large : ℕ → Text
too_large len =
    lit "incoming frame too large: "
    ++ (show len ++ (lit " bytes (max " ++ (show max_msg_bytes ++ lit ")")))

module _ {T : Type 0} (j : Json T) where
  unfoldable pub send_json : T → Io Stream Error (Unit {0})
  send_json value = do
    payload ← lift (map_err json (j.to_vec value))
    write_all (to_be_bytes (length payload % 2 ^ 32))
    write_all payload

  recv_payload : ℕ → Io Stream Error T
  recv_payload len =
      if ltb max_msg_bytes len
      then fail (message (too_large len))
      else do buf ← read_exact len; lift (map_err json (j.from_slice buf))

  unfoldable pub recv_json : Io Stream Error T
  unfolding recv_payload
  recv_json = do len_buf ← read_exact 4; recv_payload (from_be_bytes len_buf)
