-- ===== src/Agent/Cache.antt =====
-- apps/rust-apps/authn-scope-agent/src/client.rs: `get_or_fetch_credentials` and
-- `get_cert_validity_seconds`.
pub mod Fresh
pub mod Vouched
use vm_authn_scope.Prelude.{
  ℕ, ◌-◌, ◌*◌, ◌/◌, ◌^◌, Option, none, some, Bool, ltb, if◌then◌else◌, ◌++◌,
}
use mathlib.Core.Option
use vm_authn_scope.Prelude.Result.{Result, ok, map_err, to_option}
use vm_authn_scope.Prelude.Result.{◌>>=◌ as bind}
use vm_authn_scope.Prelude.Io.{Io, pure, ◌>>=◌, ◌>>◌}
use vm_authn_scope.Prelude.Int.{ltb_ℤ, as_u64, ◌-ℤ◌}
use vm_authn_scope.Prelude.Text.{Text, lit}
use vm_authn_scope.Prelude.Dict.{lookup, insert}
use vm_authn_scope.Prelude.Errors.{Error, message}
use vm_authn_scope.X509.{X509}
use vm_authn_scope.Ca.Rcgen.{Rcgen}
use vm_authn_scope.Agent.Config.{AgentConfig}
use vm_authn_scope.Agent.Kernel.{Kernel, Trace}
use vm_authn_scope.Agent.Request.{
  X509Credentials, CachedCredential, AgentState, World, request_cert_on_demand,
}

-- The seconds between the two dates of a certificate, or 0 if they are the wrong way round.
unfoldable pub get_cert_validity_seconds : X509 → Text → Result Error ℕ
get_cert_validity_seconds xp cert_pem =
    bind (map_err (λ e. message (lit "Failed to parse PEM: " ++ e)) (xp.parse_x509_pem cert_pem))
      (λ pem.
        bind
          (map_err (λ e. message (lit "Failed to parse X.509: " ++ e))
            (xp.parse_x509_certificate pem))
          (λ x509. ok (
            if ltb_ℤ (xp.not_before x509) (xp.not_after x509)
            then as_u64 (xp.not_after x509 -ℤ xp.not_before x509)
            else 0)))

-- Half of that, or 300 seconds where the certificate cannot be read.
unfoldable pub rotation_threshold : X509 → Text → ℕ
rotation_threshold xp cert_pem =
    Option.get_or (to_option (get_cert_validity_seconds xp cert_pem)) 600 / 2 * 10 ^ 9

module _ (rc : Rcgen) (xp : X509) (w : World rc) (config : AgentConfig) where
  -- `fetched_at.elapsed()` is 0 for a time in the future.
  unfoldable pub is_fresh : CachedCredential → Trace → Bool
  is_fresh cached t =
      ltb (w.kernel.clock t - cached.fetched_at) (rotation_threshold xp cached.credentials.cert_pem)

  pub remember : Text → X509Credentials → Io AgentState Error (Unit {0})
  remember identity creds s = (
    ok tt,
    record s {
      cache =
          insert identity (record { credentials = creds; fetched_at = w.kernel.clock s.trace })
            s.cache;
    },
  )

  pub fetch : Text → Io AgentState Error X509Credentials
  unfolding remember
  fetch identity = do
    creds ← request_cert_on_demand rc w config identity
    remember identity creds
    pure creds

  cached_or_fetch : Text → Option CachedCredential → Io AgentState Error X509Credentials
  unfolding fetch is_fresh
  cached_or_fetch identity none s = fetch identity s
  cached_or_fetch identity (some cached) s =
      if is_fresh cached s.trace then (ok cached.credentials, s) else fetch identity s

  unfoldable pub get_or_fetch_credentials : Text → Io AgentState Error X509Credentials
  unfolding cached_or_fetch
  get_or_fetch_credentials identity s = cached_or_fetch identity (lookup identity s.cache) s
