-- ===== src/Agent/Dial/Rounds.antt =====
-- What dialling costs: no descriptor is left open, and the rounds and the sleep are bounded.
use vm_authn_scope.Prelude.{ℕ, zero, suc, ◌+◌, ◌*◌, ◌≤◌, ◌≡◌, arith, ◌∷◌}
use vm_authn_scope.Prelude.Result.{Result, ok, err}
use vm_authn_scope.Prelude.Text.{Text}
use vm_authn_scope.Prelude.Errors.{IoError, Error}
use vm_authn_scope.Agent.Kernel.{Kernel, Trace, slept, hit, opens, closes, socket_calls, sleeps}
use vm_authn_scope.Agent.Dial.{
  Round, dialled, failed, busy, after_register, after_connect, unbound, after_bind, after_socket,
  round, resume, rounds, connect_with_local_port,
}

-- How many times a result hands on the descriptor `d`.
abbrev pub held : ℕ → Result Error ℕ → ℕ
held d (ok fd) = hit d fd
held d (err e) = 0

abbrev held_round : ℕ → Round → ℕ
held_round d (dialled fd) = hit d fd
held_round d _ = 0

-- The calls between two points of the log: the descriptor `d` is open `n` more times, within so many
-- calls of `socket` and so much sleep.
pub record Spent (d n sockets ms : ℕ) (t t' : Trace) : Type 0 where
  pub balance : opens d t' + closes d t ≡ opens d t + closes d t' + n
  pub few_sockets : socket_calls t' ≤ socket_calls t + sockets
  pub short_sleep : sleeps t' ≤ sleeps t + ms

Spent-weaken :
    {d n a b x y : ℕ} {t t' : Trace} → a ≤ b → x ≤ y → Spent d n a x t t' → Spent d n b y t t'
Spent-weaken h h' s = omega (arith, s)

after_sleep :
    {d n sockets ms pause : ℕ} {t t' : Trace}
    → Spent d n sockets ms (slept pause ∷ t) t'
    → Spent d n sockets (ms + pause) t t'
after_sleep s = omega (arith, s)

module _ (io_text : IoError → Text) (k : Kernel) (cid port local_port d : ℕ) where
  round-Spent :
      (t : Trace)
      → let r = round io_text k cid port local_port t in Spent d (held_round d r.0) 1 0 t r.1
  unfolding round after_socket after_bind after_connect after_register unbound
  round-Spent t = record {
    balance = ground arith;
    few_sockets = ground arith;
    short_sleep = ground arith;
  }

  resume-Spent :
      (again : Error → Trace → Result Error ℕ × Trace) (sockets ms : ℕ) (r : Round × Trace)
      (t : Trace)
      → Spent d (held_round d r.0) 1 0 t r.1
      → ((e : Error) (t' : Trace) → Spent d (held d (again e t').0) sockets ms t' (again e t').1)
      → let r' = resume io_text k cid port local_port again r in
        Spent d (held d r'.0) (sockets + 1) ms t r'.1
  unfolding resume
  resume-Spent again sockets ms (dialled fd, t') t s next = omega (arith, s)
  resume-Spent again sockets ms (failed e, t') t s next = omega (arith, s)
  resume-Spent again sockets ms (busy e, t') t s next = omega (arith, s, next e t')

  rounds-Spent :
      (left : ℕ) (t : Trace)
      → let r = rounds io_text k cid port local_port left t in
        Spent d (held d r.0) (left + 1) (left * 100) t r.1
  unfolding rounds
  rounds-Spent zero t =
      resume-Spent (λ e t'. (err e, t')) 0 0 (round io_text k cid port local_port t) t
        (round-Spent t) (λ e t'. omega arith)
  rounds-Spent (suc left) t = Spent-weaken (omega arith) (omega arith) (
      resume-Spent (λ e t'. rounds io_text k cid port local_port left (slept 100 ∷ t')) (left + 1)
        (left * 100 + 100) (round io_text k cid port local_port t) t (round-Spent t)
        (λ e t'. after_sleep (rounds-Spent left (slept 100 ∷ t'))))

  -- For each descriptor: whatever the system answers, connect_with_local_port returns with
  -- that descriptor open one more time if it is that of the stream that it returns, and as
  -- many times as before if not, after at most eleven calls of socket, those that fail
  -- included, and one second of sleep.
  pub connect_with_local_port-Spent :
      (t : Trace)
      → let r = connect_with_local_port io_text k cid port local_port t in
        Spent d (held d r.0) 11 1000 t r.1
  unfolding connect_with_local_port
  connect_with_local_port-Spent t = rounds-Spent 10 t
