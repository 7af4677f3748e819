-- ===== src/Server/Listener/Served.antt =====
-- Which connections are served.
use mathlib.Core.List.{Mem, mem-cons, mem-cons_of_mem, Mem-prop, not-mem-nil}
use mathlib.Core.Logic.Or
use vm_authn_scope.Prelude.{
  ℕ, ◌≡◌, ◌↔◌, ◌≢◌, sym, ap, List, [], ◌∷◌, ◌!=◌, nat_eq, Bool-cases, inl, inr, !=-eq-true,
  !=-eq-false,
}
use vm_authn_scope.Prelude.Result.{Result, ok, map_err->>=}
use vm_authn_scope.Prelude.Errors.{IoError, io}
use vm_authn_scope.Proto.Codec.{Stream}
use vm_authn_scope.Server.Config.{HostConfig}
use vm_authn_scope.Server.Listener.{
  Accept, connection, accept_error, Task, accept_loop, run_listener,
}

abbrev pub task : Stream → ℕ → Task
task stream cid = record { stream = stream; peer_cid = cid }

module _ (config : HostConfig) (stream : Stream) (cid : ℕ) where
  abbrev IsServed : List Accept → Type 0
  IsServed accepts =
      Mem (task stream cid) (accept_loop config accepts)
      ↔ Mem (connection stream cid config.peer_port) accepts

  served_same :
      (s : Stream) (c p : ℕ) (rest : List Accept)
      → p ≡ config.peer_port
      → IsServed rest
      → Mem (task stream cid) (task s c ∷ accept_loop config rest)
        ↔ Mem (connection stream cid config.peer_port) (connection s c p ∷ rest)
  served_same s c p rest right (sound, complete) = (
    λ m. mem-cons.1 (
        Or.imp (λ e. cc (ap (λ (t : Task). t.stream) e, ap (λ (t : Task). t.peer_cid) e)) sound
          (mem-cons.0 m)),
    λ m. mem-cons.1 (Or.imp (λ e. cc) complete (mem-cons.0 m)),
  )

  served_other :
      (a : Accept) (rest : List Accept)
      → a ≢ connection stream cid config.peer_port
      → IsServed rest
      → Mem (task stream cid) (accept_loop config rest)
        ↔ Mem (connection stream cid config.peer_port) (a ∷ rest)
  served_other a rest differs (sound, complete) = (
    λ m. mem-cons_of_mem a (sound m),
    λ m. Or.elim (Mem-prop) (mem-cons.0 m) (λ e. absurd (differs (sym e))) complete,
  )

  accept_loop-Mem : (accepts : List Accept) → IsServed accepts
  unfolding accept_loop
  accept_loop-Mem [] = (λ m. absurd (not-mem-nil m), λ m. absurd (not-mem-nil m))
  accept_loop-Mem (accept_error x ∷ rest) =
      served_other (accept_error x) rest (λ e. cc) (accept_loop-Mem rest)
  accept_loop-Mem (connection s c p ∷ rest) = elim (Bool-cases (p != config.peer_port)) [
    | inl wrong ↦ rw wrong (
        served_other (connection s c p) rest (λ e. !=-eq-true p config.peer_port wrong (cc e))
          (accept_loop-Mem rest))
    | inr right ↦
        rw right
          (served_same s c p rest (!=-eq-false p config.peer_port right) (accept_loop-Mem rest))
  ]

-- If the port can be bound, run_listener runs a task for a stream and a CID exactly if accept
-- returned that stream with that CID and the agent's port, whatever else is accepted or fails.
pub run_listener-Mem :
    (bind : ℕ → Result IoError (Unit {0})) (config : HostConfig) (accepts : List Accept)
    (tasks : List Task) (stream : Stream) (cid : ℕ)
    → run_listener bind config accepts ≡ ok tasks
    → Mem (task stream cid) tasks ↔ Mem (connection stream cid config.peer_port) accepts
unfolding run_listener
run_listener-Mem bind config accepts tasks stream cid e =
    let (u, bound, done) = map_err->>= io (bind config.server_port) _ e in
    let same : accept_loop config accepts ≡ tasks = cc in
    rw (← same) (accept_loop-Mem config stream cid accepts)
