-- ===== src/Transport/Sending.antt =====
-- src/protocol/transport/TransportManager.cc: `sendOrQueueData`, `sendSignature`, `GetSerializer`,
-- `SendMsg`, `EndTransport` and `HandleFDWrite`. An exception ends the call as an abort does.
use libpinggy.Prelude.{
  ℕ, suc, Bool, true, false, List, [], ◌∷◌, ◌++◌, if◌then◌else◌, length, take, drop, Outcome, ok,
  aborted, ◌>>=◌,
}
use libpinggy.Transport.State.{
  WriteResult, wrote, write_later, write_failed, Transport, written, enable_write_poll,
  disable_write_poll, close_connections, connection_reset, ready_to_send, emit, handshake_signature,
  msg_type_value, serialize_u16,
}

abbrev pub to_byte : Bool → ℕ
to_byte true = 1
to_byte false = 0

-- The answer to the next write of `xs`, and the transport that has had it.
unfoldable pub next_answer : List WriteResult → List ℕ → Transport → WriteResult × Transport
next_answer [] xs t = (wrote (length xs), t)
next_answer (r ∷ rs) xs t = (r, record t { answers = rs })

unfoldable pub queue_data : List ℕ → Transport → Transport
queue_data xs t = record t { sender_queue = t.sender_queue ++ (xs ∷ []) }

unfoldable pub lose_connection : Transport → Outcome Transport
lose_connection t = if t.has_handler then ok (emit connection_reset t) else aborted

-- What follows a write in `sendOrQueueData`.
unfoldable pub written_part : List ℕ → WriteResult × Transport → Outcome Transport
written_part xs (write_later, t) = ok (emit enable_write_poll (queue_data xs t))
written_part xs (write_failed, t) = lose_connection t
written_part xs (wrote n, t) =
    let u = emit (written (take (suc n) xs)) t in
    elim (drop (suc n) xs) [
      | [] ↦ ok u
      | y ∷ ys ↦ ok (emit enable_write_poll (queue_data (y ∷ ys) u))
    ]

unfoldable pub send_or_queue_in : List (List ℕ) → List ℕ → Transport → Outcome Transport
send_or_queue_in [] xs t = written_part xs (next_answer t.answers xs t)
send_or_queue_in (q ∷ qs) xs t = ok (queue_data xs t)

unfoldable pub send_or_queue_data : List ℕ → Transport → Outcome Transport
send_or_queue_data xs t = send_or_queue_in t.sender_queue xs t

-- The signature's last byte but one is the side, and its last the byte order.
unfoldable pub signature_of : Transport → List ℕ
signature_of t = take 254 handshake_signature ++ (to_byte t.is_server ∷ to_byte t.big_endian ∷ [])

unfoldable pub send_signature : Transport → Outcome Transport
send_signature t =
    send_or_queue_data (signature_of t) t >>= λ u. ok (record u { signature_sent = true })

-- The serializer's stream begins with this byte.
abbrev pub serializer_start : List ℕ
serializer_start = msg_type_value ∷ []

unfoldable pub get_serializer : Transport → Outcome Transport
get_serializer t = if t.signature_sent then ok t else send_signature t

-- A length, then the bytes.
unfoldable pub send_frame : List ℕ → Transport → Outcome Transport
send_frame xs t =
    send_or_queue_data (serialize_u16 t.big_endian t.mismatched_endian_serialize (length xs)) t
    >>= λ u. send_or_queue_data xs u

-- `header`: the bytes of the new paths, which the registry gives; with none there is no frame.
unfoldable pub send_header : List ℕ → Transport → Outcome Transport
send_header [] t = ok t
send_header (x ∷ xs) t = send_frame (x ∷ xs) t

unfoldable pub send_msg_in :
    List (List ℕ) → List ℕ → List ℕ → Transport → Outcome (Transport × Bool)
send_msg_in [] header body t = send_header header t >>= λ u. send_frame body u >>= λ v. ok (v, true)
send_msg_in (q ∷ qs) header body t = ok (t, false)

unfoldable pub send_msg : List ℕ → List ℕ → Transport → Outcome (Transport × Bool)
send_msg header body t = send_msg_in t.sender_queue header body t

-- `GetSerializer()->Serialize(…)->Send()`, and `SendMsg` of a `PinggyValue`.
unfoldable pub send_value : List ℕ → List ℕ → Transport → Outcome (Transport × Bool)
send_value header content t =
    get_serializer t >>= λ u. send_msg header (serializer_start ++ content) u

unfoldable pub close_if_sent : List (List ℕ) → Transport → Transport
close_if_sent [] t = emit close_connections t
close_if_sent (q ∷ qs) t = t

unfoldable pub end_transport_call : Transport → Transport
end_transport_call t =
    if t.end_transport then t else close_if_sent t.sender_queue (record t { end_transport = true })

-- After the front of the queue was written to: `qs` is what stands behind it.
unfoldable pub flushed_part : List ℕ → List (List ℕ) → WriteResult × Transport → Outcome Transport
flushed_part front qs (write_later, t) = ok t
flushed_part front qs (write_failed, t) = lose_connection t
flushed_part front qs (wrote n, t) =
    let u = emit (written (take (suc n) front)) t in
    elim (drop (suc n) front) [
      | y ∷ ys ↦ ok (record u { sender_queue = (y ∷ ys) ∷ qs })
      | [] ↦
          let v = record u { sender_queue = qs } in
          ok (if v.end_transport then close_if_sent qs v else v)
    ]

unfoldable pub handle_fd_write_in : List (List ℕ) → Transport → Outcome Transport
handle_fd_write_in [] t =
    let u = emit disable_write_poll t in ok (if u.has_handler then emit ready_to_send u else u)
handle_fd_write_in (front ∷ qs) t = flushed_part front qs (next_answer t.answers front t)

unfoldable pub handle_fd_write : Transport → Outcome Transport
handle_fd_write t = handle_fd_write_in t.sender_queue t
