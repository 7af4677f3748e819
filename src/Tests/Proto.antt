-- ===== src/Tests/Proto.antt =====
-- The codec at concrete inputs.
use vm_authn_scope.Prelude.{ℕ, zero, suc, ◌+◌, [], ◌∷◌, ◌++◌, ◌≡◌, refl, ap, length, arith}
use vm_authn_scope.Prelude.Result.{ok, err}
use vm_authn_scope.Prelude.Errors.{Bytes, message}
use vm_authn_scope.Proto.Codec.{Json, Stream, send_json, recv_json, too_large, max_msg_bytes}
use vm_authn_scope.Proto.Codec.Frame.{Takes, frame, recv-send, recv_oversize, recv_json-Takes}
use vm_authn_scope.Tests.World.{empty_stream}

zeros : ℕ → Bytes
zeros zero = []
zeros (suc n) = 0 ∷ zeros n

length-zeros : (n : ℕ) → length (zeros n) ≡ n
unfolding zeros
length-zeros zero = refl
length-zeros (suc n) = ap suc (length-zeros n)

-- A number is sent as so many zeros.
abbrev zeros_json : Json ℕ
zeros_json = record { to_vec = λ n. ok (zeros n); from_slice = λ bs. ok (length bs) }

abbrev wide_stream : Stream
wide_stream = record { incoming = []; outgoing = []; room = 5000000 }

recv-send_example :
    ((send_json zeros_json 3 empty_stream).0 ≡ ok tt)
    × ((send_json zeros_json 3 empty_stream).1.outgoing ≡ [] ++ frame (zeros 3))
    × (recv_json zeros_json (record empty_stream { incoming = frame (zeros 3) ++ 7 ∷ [] })
        ≡ (ok 3, record empty_stream { incoming = 7 ∷ [] }))
recv-send_example =
    recv-send zeros_json 3 (zeros 3) (7 ∷ []) empty_stream empty_stream refl
      (ap ok (length-zeros 3)) (omega (arith, length-zeros 3)) (omega (arith, length-zeros 3))

recv_oversize_example :
    ((send_json zeros_json 4194305 wide_stream).0 ≡ ok tt)
    × (recv_json zeros_json (record wide_stream { incoming = frame (zeros 4194305) ++ [] }) ≡ (
      err (message (too_large (length (zeros 4194305)))),
      record wide_stream { incoming = zeros 4194305 ++ [] },
    ))
recv_oversize_example =
    recv_oversize zeros_json 4194305 (zeros 4194305) [] wide_stream wide_stream refl
      (omega (arith, length-zeros 4194305)) (omega (arith, length-zeros 4194305))
      (omega (arith, length-zeros 4194305))

recv_json-Takes_example :
    Takes (4 + max_msg_bytes) empty_stream (recv_json zeros_json empty_stream).1
recv_json-Takes_example = recv_json-Takes zeros_json empty_stream
