-- ===== src/Proto/Codec/Lawful.antt =====
-- Frames with an encoding that is read back and stays under 4 GiB, whatever the size of a message.
use vm_authn_scope.Prelude.{
  ℕ, ◌+◌, ◌-◌, ◌^◌, ◌≤◌, ◌<◌, ◌≡◌, ◌≢◌, ◌⊎◌, inl, inr, refl, ap, sym, ◌∙◌, [], ◌++◌, arith, length,
  leb, Bool-cases, append-nil,
}
use vm_authn_scope.Prelude.Result.{ok, err, Result-cases, map_err-eq-ok}
use vm_authn_scope.Prelude.Errors.{Bytes, Error, json, message}
use vm_authn_scope.Proto.Codec.{
  Json, Stream, max_msg_bytes, to_be_bytes, write_all, read_exact, too_large, send_json,
  recv_payload, recv_json,
}
use vm_authn_scope.Proto.Codec.Frame.{
  frame, be_bytes_round, length-to_be_bytes, read_exact-append, send_json-frame, recv_json-frame,
}

abbrev pub IsBounded : {T : Type 0} → Json T → Type 0
IsBounded {T} j = (v : T) (bytes : Bytes) → j.to_vec v ≡ ok bytes → length bytes < 2 ^ 32

-- `serde_json` reads back what it writes, and nothing that it writes has 4 GiB.
pub record Lawful {T : Type 0} (j : Json T) : Type 0 where
  pub reads : (v : T) (bytes : Bytes) → j.to_vec v ≡ ok bytes → j.from_slice bytes ≡ ok v
  pub bounded : IsBounded j

-- So much room takes any frame.
abbrev pub frame_room : ℕ
frame_room = 2 ^ 32 + 4

module _ {T : Type 0} (j : Json T) where
  recv_json-big :
      (payload : Bytes) (s : Stream)
      → max_msg_bytes < length payload
      → length payload < 2 ^ 32
      → (recv_json j (record s { incoming = frame payload })).0
        ≡ err (message (too_large (length payload)))
  unfolding recv_json recv_payload frame
  recv_json-big payload s big fits = ground (
    arith,
    read_exact-append (to_be_bytes (length payload)) payload s,
    length-to_be_bytes (length payload),
    be_bytes_round (length payload),
  )

  -- What is received from a frame is what its payload decodes to.
  pub recv_json-eq-ok :
      (payload : Bytes) (s : Stream) {v : T}
      → length payload < 2 ^ 32
      → (recv_json j (record s { incoming = frame payload })).0 ≡ ok v
      → j.from_slice payload ≡ ok v
  recv_json-eq-ok payload s {v} fits got = elim (Bool-cases (leb (length payload) max_msg_bytes)) [
    | inl small ↦ map_err-eq-ok json (j.from_slice payload) (
        sym (
          ap (λ p. p.0)
            (rw (append-nil (frame payload)) at
              (recv_json-frame j payload [] s (ground (arith, small)))))
        ∙ got)
    | inr big ↦ absurd (cc (recv_json-big payload s (ground (arith, big)) fits, got))
  ]

  send_json_unencoded :
      (v : T) (s : Stream) (e : _) → j.to_vec v ≡ err e → send_json j v s ≡ (err (json e), s)
  unfolding send_json
  send_json_unencoded v s e fails = rw fails refl

  -- A message is sent in one frame, or not at all.
  pub send_json-cases :
      (v : T) (s : Stream)
      → IsBounded j
      → frame_room ≤ s.room
      → ((payload : Bytes) × (j.to_vec v ≡ ok payload)
          × (length payload < 2 ^ 32)
          × (send_json j v s ≡ (
            ok tt,
            record s {
              outgoing = s.outgoing ++ frame payload;
              room = s.room - (length payload + 4);
            },
          )))
        ⊎ ((e : Error) × (send_json j v s ≡ (err e, s)))
  send_json-cases v s bounded room = elim (Result-cases (j.to_vec v)) [
    | inl (payload, encodes) ↦
        let short = bounded v payload encodes in
        inl (
          payload,
          encodes,
          short,
          send_json-frame j v payload s encodes short (omega (arith, short, room)),
        )
    | inr (e, fails) ↦ inr (json e, send_json_unencoded v s e fails)
  ]

  send_json_short :
      (v : T) (payload : Bytes) (s : Stream)
      → j.to_vec v ≡ ok payload
      → length payload < 2 ^ 32
      → s.room < length payload + 4
      → (send_json j v s).0 ≢ ok tt
  unfolding send_json write_all
  send_json_short v payload s encodes short full sent =
      ground (arith, encodes, length-to_be_bytes (length payload), sent)

  -- If a message was sent, whatever room there was, then in one frame.
  pub send_json-eq-ok :
      (v : T) (s : Stream)
      → IsBounded j
      → (send_json j v s).0 ≡ ok tt
      → (payload : Bytes) × (j.to_vec v ≡ ok payload)
        × (length payload < 2 ^ 32)
        × ((send_json j v s).1.outgoing ≡ s.outgoing ++ frame payload)
  send_json-eq-ok v s bounded sent = elim (Result-cases (j.to_vec v)) [
    | inl (payload, encodes) ↦
        let short = bounded v payload encodes in
        elim (Bool-cases (leb (length payload + 4) s.room)) [
          | inl fits ↦ (
            payload,
            encodes,
            short,
            ap (λ p. p.1.outgoing)
                (send_json-frame j v payload s encodes short (ground (arith, fits))),
          )
          | inr full ↦
              absurd (send_json_short v payload s encodes short (ground (arith, full)) sent)
        ]
    | inr (e, fails) ↦ absurd (cc (ap (λ p. p.0) (send_json_unencoded v s e fails), sent))
  ]

  -- Nothing is received from a stream without bytes.
  pub recv_json_empty : (s : Stream) {v : T} → (recv_json j (record s { incoming = [] })).0 ≢ ok v
  unfolding recv_json read_exact
  recv_json_empty s got = cc (got)
