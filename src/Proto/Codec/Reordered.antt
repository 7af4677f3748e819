-- ===== src/Proto/Codec/Reordered.antt =====
-- Responses that are read back from JSON: the workloads of a handshake are a `HashMap`, so they come
-- back in any order.
use mathlib.Core.Path.{subst}
use vm_authn_scope.Prelude.{◌≡◌, sym, refl}
use vm_authn_scope.Prelude.Result.{ok}
use vm_authn_scope.Prelude.Text.{Text}
use vm_authn_scope.Prelude.Dict.{Dict, lookup, NodupKeys}
use vm_authn_scope.Prelude.Errors.{Bytes}
use vm_authn_scope.Proto.Wire.{AgentResponse, handshake_ok, cert_ok, error, WorkloadConfig}
use vm_authn_scope.Proto.Codec.{Json}
use vm_authn_scope.Proto.Codec.Lawful.{IsBounded}

-- A response with a map that has each key once, as a `HashMap` does.
abbrev pub HasMap : AgentResponse → Type 0
HasMap (handshake_ok workloads) = NodupKeys workloads
HasMap (cert_ok cert_pem ca_cert_pem) = Unit
HasMap (error msg) = Unit

-- The second response is the first one, but for the order of the workloads.
abbrev pub Alike : AgentResponse → AgentResponse → Type 0
Alike (handshake_ok workloads) resp =
    (read : Dict WorkloadConfig) × (resp ≡ handshake_ok read)
    × NodupKeys read
    × ((name : Text) → lookup name read ≡ lookup name workloads)
Alike (cert_ok cert_pem ca_cert_pem) resp = resp ≡ cert_ok cert_pem ca_cert_pem
Alike (error msg) resp = resp ≡ error msg

-- `serde_json` reads back what it writes, maps in any order, and nothing that it writes has 4 GiB.
pub record Readable (j : Json AgentResponse) : Type 0 where
  pub reads :
      (v : AgentResponse) (bytes : Bytes)
      → HasMap v
      → j.to_vec v ≡ ok bytes
      → (v' : AgentResponse) × (j.from_slice bytes ≡ ok v') × Alike v v'
  pub bounded : IsBounded j

pub Alike-cert_ok :
    (resp : AgentResponse) (cert_pem ca_cert_pem : Text)
    → Alike resp (cert_ok cert_pem ca_cert_pem)
    → resp ≡ cert_ok cert_pem ca_cert_pem
Alike-cert_ok (handshake_ok ws) cert_pem ca_cert_pem (read, e, nodup, same) = absurd (cc (e))
Alike-cert_ok (cert_ok c a) cert_pem ca_cert_pem e = sym e
Alike-cert_ok (error msg) cert_pem ca_cert_pem e = absurd (cc (e))

pub Alike-handshake_ok :
    (resp : AgentResponse) (read : Dict WorkloadConfig)
    → Alike resp (handshake_ok read)
    → (ws : Dict WorkloadConfig) × (resp ≡ handshake_ok ws)
      × NodupKeys read
      × ((name : Text) → lookup name read ≡ lookup name ws)
Alike-handshake_ok (handshake_ok ws) read (read', e, nodup, same) =
    let back : read' ≡ read = cc (e) in
    (
      ws,
      refl,
      subst NodupKeys back nodup,
      λ name. subst (λ (d : Dict WorkloadConfig). lookup name d ≡ lookup name ws) back (same name),
    )
Alike-handshake_ok (cert_ok c a) read e = absurd (cc (e))
Alike-handshake_ok (error msg) read e = absurd (cc (e))
