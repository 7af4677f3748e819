-- ===== src/Tests/Encoding.antt =====
-- An encoding of the messages that is read back, for the workloads of one host.
use vm_authn_scope.Prelude.{
  zero, suc, ◌≤◌, ◌≡◌, refl, [], ◌∷◌, ◌++◌, Bool-cases, inl, inr, length, take, drop,
  take-length-append, drop-length-append, leb, if◌then◌else◌, arith, ℕ_discrete,
}
use vm_authn_scope.Prelude.Result.{Result, ok, err}
use vm_authn_scope.Prelude.Text.{Text, lit}
use vm_authn_scope.Prelude.Dict.{Dict}
use vm_authn_scope.Prelude.Errors.{Bytes}
use vm_authn_scope.Proto.Wire.{
  AgentRequest, handshake, cert_request, AgentResponse, handshake_ok, cert_ok, error,
  WorkloadConfig,
}
use vm_authn_scope.Proto.Codec.{Json}
use vm_authn_scope.Proto.Codec.Lawful.{Lawful}
use vm_authn_scope.Proto.Codec.Reordered.{HasMap, Alike, Readable}
use vm_authn_scope.Tests.Server.{al_workloads}

-- Nothing long is encoded.
unfoldable pub short : Bytes → Result Text Bytes
short bytes = if leb (length bytes) 1000 then ok bytes else err (lit "too long")

short-eq-ok : (x bytes : Bytes) → short x ≡ ok bytes → (x ≡ bytes) × (length bytes ≤ 1000)
unfolding short
short-eq-ok x bytes e = elim (Bool-cases (leb (length x) 1000)) [
  | inl fits ↦
      let same : x ≡ bytes = cc (rw fits at e) in (same, rw (← same) (ground (arith, fits)))
  | inr long ↦ absurd (cc (rw long at e))
]

unfoldable pub encode_request : AgentRequest → Bytes
encode_request (handshake version vm_name) = 0 ∷ version ∷ vm_name
encode_request (cert_request version vm_name identity csr_pem) =
    1 ∷ version ∷ length vm_name ∷ length identity ∷ (vm_name ++ (identity ++ csr_pem))

unfoldable pub decode_request : Bytes → Result Text AgentRequest
decode_request (zero ∷ version ∷ vm_name) = ok (handshake version vm_name)
decode_request (suc _ ∷ version ∷ n ∷ m ∷ rest) =
    ok (cert_request version (take n rest) (take m (drop n rest)) (drop m (drop n rest)))
decode_request _ = err (lit "bad request")

request_round : (req : AgentRequest) → decode_request (encode_request req) ≡ ok req
unfolding decode_request encode_request
request_round (handshake version vm_name) = refl
request_round (cert_request version vm_name identity csr_pem) =
    rw
      (
        take-length-append vm_name (identity ++ csr_pem),
        drop-length-append vm_name (identity ++ csr_pem),
        take-length-append identity csr_pem,
        drop-length-append identity csr_pem,
      )
      refl

unfoldable pub workloads_dec : Discrete (Dict WorkloadConfig)
workloads_dec = hlevel ℕ_discrete

-- Only the workloads of one host are encoded.
unfoldable pub encode_workloads : {P : Type 0} → Dec P → Result Text Bytes
encode_workloads (yes same) = ok (0 ∷ [])
encode_workloads (no differ) = err (lit "other workloads")

unfoldable pub encode_response : AgentResponse → Result Text Bytes
unfolding encode_workloads workloads_dec
encode_response (handshake_ok workloads) = encode_workloads (workloads_dec workloads al_workloads)
encode_response (cert_ok cert_pem ca_cert_pem) =
    short (1 ∷ length cert_pem ∷ (cert_pem ++ ca_cert_pem))
encode_response (error msg) = short (2 ∷ msg)

unfoldable pub decode_response : Bytes → Result Text AgentResponse
decode_response (zero ∷ []) = ok (handshake_ok al_workloads)
decode_response (suc zero ∷ n ∷ rest) = ok (cert_ok (take n rest) (drop n rest))
decode_response (suc (suc _) ∷ msg) = ok (error msg)
decode_response _ = err (lit "bad response")

abbrev pub request_json : Json AgentRequest
request_json = record { to_vec = λ req. short (encode_request req); from_slice = decode_request }

abbrev pub response_json : Json AgentResponse
response_json = record { to_vec = encode_response; from_slice = decode_response }

pub requests-Lawful : Lawful request_json
requests-Lawful = record {
  reads = λ req bytes e.
      let (same, fits) = short-eq-ok (encode_request req) bytes e in
      rw (← same) (request_round req);
  bounded = λ req bytes e.
      let (same, fits) = short-eq-ok (encode_request req) bytes e in omega (arith, fits);
}

response_round :
    (resp : AgentResponse) (bytes : Bytes)
    → encode_response resp ≡ ok bytes
    → (decode_response bytes ≡ ok resp) × (length bytes ≤ 1000)
unfolding encode_response decode_response encode_workloads
response_round (handshake_ok workloads) bytes e = go (workloads_dec workloads al_workloads) e
  where
    go :
        (d : Dec (workloads ≡ al_workloads))
        → encode_workloads d ≡ ok bytes
        → (decode_response bytes ≡ ok (handshake_ok workloads)) × (length bytes ≤ 1000)
    go (yes same) h = let b : (0 ∷ []) ≡ bytes = cc (h) in rw (← b) (rw same refl, omega arith)
    go (no differ) h = absurd (cc (h))
response_round (cert_ok cert_pem ca_cert_pem) bytes e =
    let (same, fits) = short-eq-ok _ bytes e in
    (
      rw (← same) (
          rw (take-length-append cert_pem ca_cert_pem, drop-length-append cert_pem ca_cert_pem)
            refl),
      fits,
    )
response_round (error msg) bytes e =
    let (same, fits) = short-eq-ok _ bytes e in (rw (← same) refl, fits)

Alike-refl : (resp : AgentResponse) → HasMap resp → Alike resp resp
Alike-refl (handshake_ok ws) nodup = (ws, refl, nodup, λ name. refl)
Alike-refl (cert_ok cert_pem ca_cert_pem) u = refl
Alike-refl (error msg) u = refl

pub responses-Readable : Readable response_json
responses-Readable = record {
  reads = λ resp bytes has_map e. (resp, (response_round resp bytes e).0, Alike-refl resp has_map);
  bounded = λ resp bytes e. omega (arith, (response_round resp bytes e).1);
}
