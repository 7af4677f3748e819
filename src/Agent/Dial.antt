-- ===== src/Agent/Dial.antt =====
-- apps/rust-apps/authn-scope-agent/src/client.rs: `connect_with_local_port`. The descriptor stands
-- for the stream that is returned.
pub mod Rounds
pub mod Granted
use vm_authn_scope.Prelude.{ℕ, zero, suc, Option, none, some, [], ◌∷◌, ◌++◌}
use mathlib.Core.Option
use vm_authn_scope.Prelude.Result.{Result, ok, err}
use vm_authn_scope.Prelude.Text.{Text, lit, show, parse_u32}
use vm_authn_scope.Prelude.Errors.{
  IoError, unexpected_eof, broken_pipe, addr_in_use, not_found, other, Error, io, message, context,
}
use vm_authn_scope.Agent.Kernel.{
  Kernel, Trace, opened, socket_error, set_reuse_addr, bound, connected, closed, slept,
}

-- `VSOCK_HOST_CID`, if it is a number, or else 2.
unfoldable pub host_cid : Option Text → ℕ
host_cid none = 2
host_cid (some s) = Option.get_or (parse_u32 s) 2

-- "binding vsock client socket to local port {}"
unfoldable pub bind_context : ℕ → Text
bind_context port = lit "binding vsock client socket to local port " ++ show port

unfoldable pub connect_failed : Text → Text
connect_failed e = lit "vsock connect failed: " ++ e

-- How one round of the loop ends.
pub data Round : Type 0 where
  -- the stream of a descriptor is returned
  dialled : ℕ → Round
  -- an error is returned
  failed : Error → Round
  -- the port is in use: the next round, or this error if there is none
  busy : Error → Round

module _ (io_text : IoError → Text) (k : Kernel) (cid port local_port : ℕ) where
  after_register : ℕ → Result IoError (Unit {0}) → Trace → Round × Trace
  after_register fd (ok u) t = (dialled fd, t)
  after_register fd (err e) t = (failed (io e), closed fd ∷ t)

  after_connect : ℕ → Result IoError (Unit {0}) → Trace → Round × Trace
  after_connect fd (ok u) t = after_register fd (k.register t) t
  after_connect fd (err e) t = (failed (message (connect_failed (io_text e))), closed fd ∷ t)

  unbound : IoError → Round
  unbound addr_in_use = busy (context (bind_context local_port) (io addr_in_use))
  unbound e = failed (context (bind_context local_port) (io e))

  after_bind : ℕ → Result IoError (Unit {0}) → Trace → Round × Trace
  after_bind fd (ok u) t = after_connect fd (k.connect t) (connected fd cid port ∷ t)
  after_bind fd (err e) t = (unbound e, closed fd ∷ t)

  after_socket : Result IoError ℕ → Trace → Round × Trace
  after_socket (err e) t = (failed (io e), socket_error ∷ t)
  after_socket (ok fd) t =
      let t' = set_reuse_addr fd ∷ opened fd ∷ t in
      after_bind fd (k.bind t') (bound fd local_port ∷ t')

  round : Trace → Round × Trace
  unfolding after_socket after_bind after_connect after_register unbound
  round t = after_socket (k.socket t) t

  -- What follows a round: `again` is what the code does where the port is in use.
  resume : (Error → Trace → Result Error ℕ × Trace) → Round × Trace → Result Error ℕ × Trace
  resume again (dialled fd, t) = (ok fd, t)
  resume again (failed e, t) = (err e, t)
  resume again (busy e, t) = again e t

  -- The loop, with the rounds that are left after this one: ten at first (`attempts < 10`).
  rounds : ℕ → Trace → Result Error ℕ × Trace
  unfolding resume
  rounds zero t = resume (λ e t'. (err e, t')) (round t)
  rounds (suc left) t = resume (λ e t'. rounds left (slept 100 ∷ t')) (round t)

  unfoldable pub connect_with_local_port : Trace → Result Error ℕ × Trace
  unfolding rounds round
  connect_with_local_port t = rounds 10 t
