-- ===== src/Transport/Receiving.antt =====
-- src/protocol/transport/TransportManager.cc: `HandleFDRead` and what it calls.
use libpinggy.Prelude.{
  ℕ, ◌-◌, ◌*◌, Bool, true, false, not, ◌&&◌, ltb, ◌==◌, List, [], ◌∷◌, ◌++◌, if◌then◌else◌, length,
  take, drop, none, some, get_elem?, Outcome, ok, aborted, ◌>>=◌,
}
use libpinggy.Transport.State.{
  Transport, path_definition, incoming, incomplete_handshake, emit, handshake_length,
  transport_header_length, msg_type_value, msg_type_type, handshake_signature, deserialize_u16,
}
use libpinggy.Transport.Sending.{lose_connection}

-- What a `Read` of the connection gives.
pub data ReadResult : Type 0 where
  received : List ℕ → ReadResult
  read_later read_failed : ReadResult

-- A byte of the signature as a `bool`.
abbrev flag_at : ℕ → List ℕ → Bool
flag_at i xs = elim (get_elem? xs i) [ none ↦ false | some x ↦ not (x == 0) ]

abbrev pub differ : Bool → Bool → Bool
differ true b = not b
differ false b = b

unfoldable pub same_bytes : List ℕ → List ℕ → Bool
same_bytes [] [] = true
same_bytes [] (y ∷ ys) = false
same_bytes (x ∷ xs) [] = false
same_bytes (x ∷ xs) (y ∷ ys) = (x == y) && same_bytes xs ys

-- `HandleIncompleteHandshake`, or the exception.
unfoldable pub fail_handshake : Transport → Outcome Transport
fail_handshake t = if t.has_handler then ok (emit incomplete_handshake t) else aborted

unfoldable pub recv_signature : List ℕ → Transport → Outcome Transport
recv_signature xs t = (if ltb (length xs) handshake_length then fail_handshake t else ok t) >>= λ u.
    let remote_big = flag_at 255 xs in
    let remote_server = flag_at 254 xs in
    let mismatch = differ remote_big u.big_endian in
    if u.is_server && remote_server
    then aborted
    else (let v = record u {
      mismatched_endianness = if u.is_server then u.mismatched_endianness else mismatch;
      mismatched_endian_serialize =
          if remote_server then mismatch else u.mismatched_endian_serialize;
    } in
        (if same_bytes (take 254 xs) (take 254 handshake_signature) then ok v else fail_handshake v)
        >>= λ w. ok (record w { expected_len = transport_header_length; signature_rcvd = true }))

unfoldable pub parse_header : List ℕ → Transport → Transport
parse_header xs t = record t {
  expected_len = deserialize_u16 t.big_endian t.mismatched_endianness xs;
  reading_header = false;
}

-- `parsePathDefinition` and `parseBody`, by the first byte; another one is passed over.
unfoldable pub parse_content : List ℕ → Transport → Transport
parse_content [] t = t
parse_content (kind ∷ content) t =
    if kind == msg_type_type
    then emit (path_definition content) t
    else if kind == msg_type_value
    then (if t.has_handler then emit (incoming t.enable_pinggy_value content) t else t)
    else t

unfoldable pub parse_data : List ℕ → Transport → Transport
parse_data xs t = record (parse_content xs t) {
  reading_header = true;
  expected_len = transport_header_length;
}

-- A piece of `expectedLen` bytes is complete.
unfoldable pub parse : List ℕ → Transport → Outcome Transport
parse xs t =
    if not t.signature_rcvd
    then recv_signature xs t
    else if t.reading_header
    then ok (parse_header xs t)
    else ok (parse_data xs t)

abbrev mega_byte : ℕ
mega_byte = 1024 * 1024

-- How many bytes `HandleFDRead` asks for.
abbrev pub to_be_len : Transport → ℕ
to_be_len t = t.expected_len - length t.recv_raw_data

unfoldable pub read_part : ReadResult → Transport → Outcome Transport
read_part read_later t = ok t
read_part read_failed t = lose_connection t
read_part (received xs) t =
    let all = t.recv_raw_data ++ xs in
    if ltb (length all) t.expected_len
    then ok (record t { recv_raw_data = all })
    else parse (take t.expected_len all) (record t { recv_raw_data = drop t.expected_len all })

unfoldable pub handle_fd_read : ReadResult → Transport → Outcome Transport
handle_fd_read r t =
    if to_be_len t == 0
    then aborted
    else if ltb mega_byte (to_be_len t)
    then aborted
    else read_part r t
