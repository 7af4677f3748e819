-- ===== src/Proto/Codec/Frame.antt =====
-- Framing: what is sent is received, what is too long is refused, and how much a reader takes.
use vm_authn_scope.Prelude.{
  ℕ, ◌+◌, ◌-◌, ◌^◌, ◌≤◌, ◌<◌, ◌≡◌, refl, sym, ◌∙◌, [], ◌++◌, append_assoc, length, take,
  length-append, take-length-append, drop-length-append, take-append-drop, length-take-le, drop_all,
  arith, ltb, Bool-cases, inl, inr,
}
use vm_authn_scope.Prelude.Result.{Result, ok, err, map_err}
use vm_authn_scope.Prelude.Io.{Io, continue}
use vm_authn_scope.Prelude.Errors.{Bytes, Error, message}
use vm_authn_scope.Proto.Codec.{
  Json, Stream, max_msg_bytes, to_be_bytes, from_be_bytes, write_all, read_exact, too_large,
  send_json, recv_payload, recv_json,
}

-- The bytes of one message.
unfoldable pub frame : Bytes → Bytes
frame payload = to_be_bytes (length payload) ++ payload

pub be_bytes_round : (n : ℕ) → n < 2 ^ 32 → from_be_bytes (to_be_bytes n) ≡ n
unfolding to_be_bytes from_be_bytes
be_bytes_round n h = omega arith

pub length-to_be_bytes : (n : ℕ) → length (to_be_bytes n) ≡ 4
unfolding to_be_bytes
length-to_be_bytes n = refl

-- A read of what stands at the front of a stream.
pub read_exact-append :
    (xs ys : Bytes) (s : Stream)
    → read_exact (length xs) (record s { incoming = xs ++ ys })
      ≡ (ok xs, record s { incoming = ys })
unfolding read_exact
read_exact-append xs ys s =
    ground (arith, length-append xs ys, take-length-append xs ys, drop-length-append xs ys)

pub write_all-fits :
    (xs : Bytes) (s : Stream)
    → length xs ≤ s.room
    → write_all xs s ≡ (ok tt, record s { outgoing = s.outgoing ++ xs; room = s.room - length xs })
unfolding write_all
write_all-fits xs s h = ground arith

module _ {T : Type 0} (j : Json T) where
  -- What `send_json` leaves on a stream with room for the frame.
  pub send_json-frame :
      (v : T) (payload : Bytes) (s : Stream)
      → j.to_vec v ≡ ok payload
      → length payload < 2 ^ 32
      → length payload + 4 ≤ s.room
      → send_json j v s ≡ (
        ok tt,
        record s { outgoing = s.outgoing ++ frame payload; room = s.room - (length payload + 4) },
      )
  unfolding send_json frame
  send_json-frame v payload s enc small fits = ground (
    arith,
    length-to_be_bytes (length payload),
    write_all-fits (to_be_bytes (length payload)) s,
    write_all-fits payload
        (record s { outgoing = s.outgoing ++ to_be_bytes (length payload); room = s.room - 4 }),
    append_assoc s.outgoing (to_be_bytes (length payload)) payload,
  )

  recv_payload-append :
      (payload rest : Bytes) (s : Stream)
      → length payload ≤ max_msg_bytes
      → recv_payload j (length payload) (record s { incoming = payload ++ rest })
        ≡ (map_err Error.json (j.from_slice payload), record s { incoming = rest })
  unfolding recv_payload
  recv_payload-append payload rest s small = ground (arith, read_exact-append payload rest s)

  -- A frame at the front of a stream is taken off it, and its payload decoded.
  pub recv_json-frame :
      (payload rest : Bytes) (s : Stream)
      → length payload ≤ max_msg_bytes
      → recv_json j (record s { incoming = frame payload ++ rest })
        ≡ (map_err Error.json (j.from_slice payload), record s { incoming = rest })
  unfolding recv_json frame
  recv_json-frame payload rest s small = ground (
    arith,
    read_exact-append (to_be_bytes (length payload)) (payload ++ rest) s,
    length-to_be_bytes (length payload),
    append_assoc (to_be_bytes (length payload)) payload rest,
    be_bytes_round (length payload),
    recv_payload-append payload rest s,
  )

  -- A message that serde_json encodes to at most 4 MiB and reads back, sent on a stream with
  -- room, is written as one frame without an error, and a reader with that frame in front
  -- returns the message and leaves what stands behind the frame.
  pub recv-send :
      (v : T) (payload rest : Bytes) (s r : Stream)
      → j.to_vec v ≡ ok payload
      → j.from_slice payload ≡ ok v
      → length payload ≤ max_msg_bytes
      → length payload + 4 ≤ s.room
      → ((send_json j v s).0 ≡ ok tt)
        × ((send_json j v s).1.outgoing ≡ s.outgoing ++ frame payload)
        × (recv_json j (record r { incoming = frame payload ++ rest })
            ≡ (ok v, record r { incoming = rest }))
  recv-send v payload rest s r enc dec small fits =
      ground (arith, send_json-frame v payload s enc, recv_json-frame payload rest r)

  -- A message that encodes to more than 4 MiB and under 4 GiB is sent without an error on a
  -- stream with room, and recv_json refuses its frame after the four bytes of its length.
  pub recv_oversize :
      (v : T) (payload rest : Bytes) (s r : Stream)
      → j.to_vec v ≡ ok payload
      → max_msg_bytes < length payload
      → length payload < 2 ^ 32
      → length payload + 4 ≤ s.room
      → ((send_json j v s).0 ≡ ok tt)
        × (recv_json j (record r { incoming = frame payload ++ rest })
            ≡ (err (message (too_large (length payload))), record r { incoming = payload ++ rest }))
  unfolding recv_json recv_payload frame
  recv_oversize v payload rest s r enc big fits room = ground (
    arith,
    send_json-frame v payload s enc,
    read_exact-append (to_be_bytes (length payload)) (payload ++ rest) r,
    length-to_be_bytes (length payload),
    append_assoc (to_be_bytes (length payload)) payload rest,
    be_bytes_round (length payload),
  )

-- One read takes bytes off the front, at most as many as it wants, and writes none.
pub record Takes (n : ℕ) (s t : Stream) : Type 0 where
  pub used : Bytes
  pub split : s.incoming ≡ used ++ t.incoming
  pub few : length used ≤ n
  pub same_outgoing : t.outgoing ≡ s.outgoing
  pub same_room : t.room ≡ s.room

read_exact-Takes : (n : ℕ) (s : Stream) → Takes n s (read_exact n s).1
unfolding read_exact
read_exact-Takes n s = record {
  used = take n s.incoming;
  split = ground (arith, take-append-drop n s.incoming, drop_all n s.incoming);
  few = length-take-le n s.incoming;
  same_outgoing = ground arith;
  same_room = ground arith;
}

Takes-zero : {n : ℕ} (s : Stream) → Takes n s s
Takes-zero s = record {
  used = [];
  split = refl;
  few = omega arith;
  same_outgoing = refl;
  same_room = refl;
}

Takes-le : {m n : ℕ} {s t : Stream} → m ≤ n → Takes m s t → Takes n s t
Takes-le h p = record {
  used = p.used;
  split = p.split;
  few = omega (arith, p.few);
  same_outgoing = p.same_outgoing;
  same_room = p.same_room;
}

Takes-trans : {m n : ℕ} {s t u : Stream} → Takes m s t → Takes n t u → Takes (m + n) s u
Takes-trans {u} p q = record {
  used = p.used ++ q.used;
  split = rw (p.split, q.split) (sym (append_assoc p.used q.used u.incoming));
  few = omega (arith, p.few, q.few, length-append p.used q.used);
  same_outgoing = q.same_outgoing ∙ p.same_outgoing;
  same_room = q.same_room ∙ p.same_room;
}

continue-Takes :
    {A B : Type 0} {m n : ℕ} (f : A → Io Stream Error B) (p : Result Error A × Stream) (s : Stream)
    → Takes m s p.1
    → ((a : A) (t : Stream) → Takes n t (f a t).1)
    → Takes (m + n) s (continue f p).1
continue-Takes f (ok a, t) s h k = Takes-trans h (k a t)
continue-Takes f (err e, t) s h k = Takes-le (omega arith) h

module _ {T : Type 0} (j : Json T) where
  recv_payload-Takes : (len : ℕ) (s : Stream) → Takes max_msg_bytes s (recv_payload j len s).1
  unfolding recv_payload
  recv_payload-Takes len s = elim (Bool-cases (ltb max_msg_bytes len)) [
    | inl big ↦ rw big (Takes-zero s)
    | inr small ↦ rw small (
        Takes-le (ground arith) (
          continue-Takes _ (read_exact len s) s (read_exact-Takes len s)
            (λ buf t. Takes-zero {n = 0} t)))
  ]

  -- Whatever a peer sends, recv_json takes bytes off the front of the stream only, at most 4
  -- MiB and four of them, and writes nothing.
  pub recv_json-Takes : (s : Stream) → Takes (4 + max_msg_bytes) s (recv_json j s).1
  unfolding recv_json
  recv_json-Takes s =
      continue-Takes _ (read_exact 4 s) s (read_exact-Takes 4 s)
        (λ len_buf t. recv_payload-Takes (from_be_bytes len_buf) t)
