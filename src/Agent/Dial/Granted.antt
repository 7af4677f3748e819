-- ===== src/Agent/Dial/Granted.antt =====
-- The first round of `connect_with_local_port` where the kernel grants each call.
use vm_authn_scope.Prelude.{ℕ, ◌≡◌, ◌∷◌, arith}
use vm_authn_scope.Prelude.Result.{ok}
use vm_authn_scope.Prelude.Errors.{IoError}
use vm_authn_scope.Prelude.Text.{Text}
use vm_authn_scope.Agent.Kernel.{Kernel, Trace, opened, set_reuse_addr, bound, connected}
use vm_authn_scope.Agent.Dial.{
  connect_with_local_port, rounds, round, resume, after_socket, after_bind, after_connect,
  after_register,
}

-- No call of the kernel fails.
pub record Granted (k : Kernel) : Type 0 where
  pub socket : (t : Trace) → (fd : ℕ) × (k.socket t ≡ ok fd)
  pub binds : (t : Trace) → k.bind t ≡ ok tt
  pub connects : (t : Trace) → k.connect t ≡ ok tt
  pub registers : (t : Trace) → k.register t ≡ ok tt
  pub listens : (t : Trace) → k.listen t ≡ ok tt

pub connect-Granted :
    (io_text : IoError → Text) (k : Kernel) (cid port local_port : ℕ) (granted : Granted k)
    (t : Trace)
    → (fd : ℕ) × (t' : Trace) × (connect_with_local_port io_text k cid port local_port t
        ≡ (ok fd, t'))
unfolding connect_with_local_port rounds round resume after_socket after_bind after_connect
    after_register
connect-Granted io_text k cid port local_port granted t =
    let (fd, e) = granted.socket t in
    let t₁ : Trace = set_reuse_addr fd ∷ opened fd ∷ t in
    let t₂ : Trace = bound fd local_port ∷ t₁ in
    let t₃ : Trace = connected fd cid port ∷ t₂ in
    (fd, t₃, ground (arith, e, granted.binds t₁, granted.connects t₂, granted.registers t₃))
