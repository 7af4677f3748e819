-- ===== src/Agent/Exchange/Granted.antt =====
-- The first attempt of the loop that binds the listener where the kernel grants it.
use vm_authn_scope.Prelude.{ℕ, ◌≡◌, ◌∷◌, arith}
use vm_authn_scope.Prelude.Result.{ok}
use vm_authn_scope.Prelude.Text.{Text}
use vm_authn_scope.Agent.Kernel.{Kernel, Trace, listened}
use vm_authn_scope.Agent.Dial.Granted.{Granted}
use vm_authn_scope.Agent.Exchange.{bind_listener, listen_rounds, bound_or}

pub bind_listener-Granted :
    (k : Kernel) (port : ℕ) (failing : Text) (granted : Granted k) (t : Trace)
    → bind_listener k port failing t ≡ (ok tt, listened port ∷ t)
unfolding bind_listener listen_rounds bound_or
bind_listener-Granted k port failing granted t = ground (arith, granted.listens t)
