-- ===== src/Workload/Rotation.antt =====
-- What a client has in memory while it rotates its credentials.
use vm_authn_scope.Prelude.{
  ◌≡◌, ◌↔◌, refl, inl, inr, ap, sym, ◌∙◌, Option, none, some, List, [], ◌∷◌, ◌++◌, All,
}
use vm_authn_scope.Prelude.Result.{ok, err, Result-cases}
use vm_authn_scope.Prelude.Errors.{Error}
use vm_authn_scope.Proto.Codec.{Json}
use vm_authn_scope.Agent.Request.{X509Credentials}
use vm_authn_scope.Agent.Conn.{WorkloadRequest, WorkloadResponse}
use vm_authn_scope.Workload.{
  WorkloadClient, Round, fetch_credentials, fetch_round, rotate, rotation_loop, current_credentials,
}

module _ (request_json : Json WorkloadRequest) (response_json : Json WorkloadResponse) where
  abbrev pub Fails : WorkloadClient → Round → Type 0
  Fails client round = (e : Error) × (fetch_round request_json response_json client round ≡ err e)

  -- What a round gets does not depend on what the client has.
  fetch_round-cached :
      (client : WorkloadClient) (o : Option X509Credentials) (round : Round)
      → fetch_round request_json response_json (record client { cached = o }) round
        ≡ fetch_round request_json response_json client round
  unfolding fetch_round fetch_credentials
  fetch_round-cached client o round = refl

  All-Fails-cached :
      (client : WorkloadClient) (o : Option X509Credentials) (rounds : List Round)
      → All (Fails client) rounds ↔ All (Fails (record client { cached = o })) rounds
  unfolding fetch_round fetch_credentials
  All-Fails-cached client o rounds = (λ h. h, λ h. h)

  -- One round.
  loop_ok :
      (client : WorkloadClient) (round : Round) (rounds : List Round) (creds : X509Credentials)
      → fetch_round request_json response_json client round ≡ ok creds
      → rotation_loop request_json response_json (round ∷ rounds) client
        ≡ rotation_loop request_json response_json rounds (record client { cached = some creds })
  unfolding rotation_loop rotate
  loop_ok client round rounds creds gets = rw (gets, rotation_loop) refl

  loop_err :
      (client : WorkloadClient) (round : Round) (rounds : List Round) (e : Error)
      → fetch_round request_json response_json client round ≡ err e
      → rotation_loop request_json response_json (round ∷ rounds) client
        ≡ rotation_loop request_json response_json rounds client
  unfolding rotation_loop rotate
  loop_err client round rounds e fails = rw (fails, rotation_loop) refl

  loop-Fails :
      (client : WorkloadClient) (rounds : List Round)
      → All (Fails client) rounds
      → rotation_loop request_json response_json rounds client ≡ client
  unfolding rotation_loop
  loop-Fails client [] h = refl
  loop-Fails client (round ∷ rounds) ((e, fails), h) =
      loop_err client round rounds e fails ∙ loop-Fails client rounds h

  loop_gets :
      (client : WorkloadClient) (before after : List Round) (round : Round)
      (creds : X509Credentials)
      → fetch_round request_json response_json client round ≡ ok creds
      → All (Fails client) after
      → rotation_loop request_json response_json (before ++ round ∷ after) client
        ≡ record client { cached = some creds }
  loop_gets client [] after round creds gets fails =
      loop_ok client round after creds gets
      ∙ loop-Fails (record client { cached = some creds }) after
          ((All-Fails-cached client (some creds) after).0 fails)
  loop_gets client (r ∷ before) after round creds gets fails =
      elim (Result-cases (fetch_round request_json response_json client r)) [
        | inl (c, got) ↦
            loop_ok client r (before ++ round ∷ after) c got
            ∙ loop_gets (record client { cached = some c }) before after round creds
                (fetch_round-cached client (some c) round ∙ gets)
                ((All-Fails-cached client (some c) after).0 fails)
        | inr (e, failed) ↦
            loop_err client r (before ++ round ∷ after) e failed
            ∙ loop_gets client before after round creds gets fails
      ]

  -- After any rounds of the rotation loop, a round that fetches credentials and rounds that
  -- fail, the client's current credentials are those that were fetched.
  pub rotation_loop-latest :
      (client : WorkloadClient) (before after : List Round) (round : Round)
      (creds : X509Credentials)
      → fetch_round request_json response_json client round ≡ ok creds
      → All (Fails client) after
      → current_credentials
          (rotation_loop request_json response_json (before ++ round ∷ after) client)
        ≡ some creds
  unfolding current_credentials
  rotation_loop-latest client before after round creds gets fails =
      ap (λ (c : WorkloadClient). c.cached) (loop_gets client before after round creds gets fails)

  none-Fails :
      (client : WorkloadClient) (rounds : List Round)
      → (rotation_loop request_json response_json rounds client).cached ≡ none
      → (client.cached ≡ none) × All (Fails client) rounds
  unfolding rotation_loop
  none-Fails client [] h = (h, tt)
  none-Fails client (round ∷ rounds) h =
      elim (Result-cases (fetch_round request_json response_json client round)) [
        | inl (c, got) ↦
            let (filled, later) =
              none-Fails (record client { cached = some c }) rounds
                (sym (ap (λ (x : WorkloadClient). x.cached) (loop_ok client round rounds c got))
                  ∙ h) in
            absurd (cc (filled))
        | inr (e, failed) ↦
            let (empty, later) = none-Fails client rounds (
              sym (ap (λ (x : WorkloadClient). x.cached) (loop_err client round rounds e failed))
              ∙ h) in
            (empty, ((e, failed), later))
      ]

  -- The client is without credentials after some rounds of the rotation loop exactly if it
  -- was before and every round failed: from the first round that fetches credentials on, it
  -- always has some.
  pub rotation_loop-none :
      (client : WorkloadClient) (rounds : List Round)
      → (current_credentials (rotation_loop request_json response_json rounds client) ≡ none)
        ↔ ((current_credentials client ≡ none) × All (Fails client) rounds)
  unfolding current_credentials
  rotation_loop-none client rounds = (
    none-Fails client rounds,
    λ (empty, fails).
        ap (λ (c : WorkloadClient). c.cached) (loop-Fails client rounds fails) ∙ empty,
  )
