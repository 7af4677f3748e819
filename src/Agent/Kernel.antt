-- ===== src/Agent/Kernel.antt =====
-- What the agent asks of its surroundings: a log of the calls, and a kernel that answers each call
-- as any function of the calls before it.
use vm_authn_scope.Prelude.{ℕ, ◌+◌, List, [], ◌∷◌, if◌then◌else◌, ◌==◌, nat_eq}
use vm_authn_scope.Prelude.Result.{Result}
use vm_authn_scope.Prelude.Errors.{Bytes, IoError}

pub data Event : Type 0 where
  -- `socket` gave a descriptor, or failed
  opened : ℕ → Event
  socket_error : Event
  set_reuse_addr : ℕ → Event
  -- descriptor and port
  bound : ℕ → ℕ → Event
  -- descriptor, CID and port
  connected : ℕ → ℕ → ℕ → Event
  closed : ℕ → Event
  -- milliseconds
  slept : ℕ → Event
  -- a listener was asked for on a port, and dropped
  listened : ℕ → Event
  unlistened : ℕ → Event
  -- what was written to the stream of a descriptor
  sent : ℕ → Bytes → Event
  -- nanoseconds in which nothing was asked
  passed : ℕ → Event

-- The latest call comes first.
abbrev pub Trace : Type 0
Trace = List Event

pub record Kernel : Type 0 where
  pub socket : Trace → Result IoError ℕ
  pub bind : Trace → Result IoError (Unit {0})
  pub connect : Trace → Result IoError (Unit {0})
  -- `VsockStream::new`, which registers the socket with the runtime
  pub register : Trace → Result IoError (Unit {0})
  -- `VsockListener::bind`
  pub listen : Trace → Result IoError (Unit {0})
  -- how much a new stream takes before it breaks, and what comes back for what was written, up to
  -- the end of the stream: a host that stays silent and holds the stream is not among these
  pub room : Trace → ℕ
  pub reply : Trace → Bytes → Bytes
  -- `Instant::now`, in nanoseconds
  pub clock : Trace → ℕ

unfoldable pub hit : ℕ → ℕ → ℕ
hit d fd = if d == fd then 1 else 0

-- How many times the descriptor `d` was opened, and closed.
abbrev pub opens : ℕ → Trace → ℕ
opens d [] = 0
opens d (opened fd ∷ t) = hit d fd + opens d t
opens d (_ ∷ t) = opens d t

abbrev pub closes : ℕ → Trace → ℕ
closes d [] = 0
closes d (closed fd ∷ t) = hit d fd + closes d t
closes d (_ ∷ t) = closes d t

-- The calls of `socket`, those that failed too.
abbrev pub socket_calls : Trace → ℕ
socket_calls [] = 0
socket_calls (opened fd ∷ t) = 1 + socket_calls t
socket_calls (socket_error ∷ t) = 1 + socket_calls t
socket_calls (_ ∷ t) = socket_calls t

-- The milliseconds slept.
abbrev pub sleeps : Trace → ℕ
sleeps [] = 0
sleeps (slept ms ∷ t) = ms + sleeps t
sleeps (_ ∷ t) = sleeps t
