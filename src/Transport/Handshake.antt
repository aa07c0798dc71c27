-- ===== src/Transport/Handshake.antt =====
-- What the two ends know of each other once each has had the other's signature.
use libpinggy.Prelude.{
  ℕ, ◌≡◌, Bool, true, false, ◌&&◌, List, [], ◌∷◌, ◌++◌, take, if◌then◌else◌, ok, arith,
}
use libpinggy.Transport.State.{
  Transport, handshake_signature, transport_header_length, high_first, new_transport,
}
use libpinggy.Transport.Sending.{signature_of, to_byte}
use libpinggy.Transport.Receiving.{recv_signature, same_bytes, differ}
use libpinggy.Transport.Stream.{order_of}
use libpinggy.Transport.Frames.{IsReady}

-- The order in which numbers are read.
abbrev read_order : Transport → Bool
read_order t = high_first t.big_endian t.mismatched_endianness

-- The transport after the signature of `b`.
abbrev heard : Transport → Transport → Transport
heard b a =
    let mismatch = differ b.big_endian a.big_endian in
    record a {
      mismatched_endianness = if a.is_server then a.mismatched_endianness else mismatch;
      mismatched_endian_serialize = if b.is_server then mismatch else a.mismatched_endian_serialize;
      expected_len = transport_header_length;
      signature_rcvd = true;
    }

abbrev signature_with : Bool → Bool → List ℕ
signature_with server big = take 254 handshake_signature ++ (to_byte server ∷ to_byte big ∷ [])

recv_signature-heard :
    (a b : Transport)
    → (a.is_server && b.is_server) ≡ false
    → recv_signature (signature_of b) a ≡ ok (heard b a)
unfolding recv_signature signature_of same_bytes
recv_signature-heard a b h = ground arith

-- Two new transports, of which one at most is a server: once each has had the other's signature,
-- each is ready to read frames in the byte order in which the other sends them, whatever the byte
-- orders of the two hosts.
pub handshake_agrees :
    (a_big b_big a_handler b_handler a_server b_server : Bool)
    → (a_server && b_server) ≡ false
    → (u : Transport) × (v : Transport) × (recv_signature
          (signature_of (new_transport b_big b_handler b_server true))
          (new_transport a_big a_handler a_server true)
        ≡ ok u)
      × (recv_signature
            (signature_of (new_transport a_big a_handler a_server true))
            (new_transport b_big b_handler b_server true)
          ≡ ok v)
      × IsReady (order_of v) u
      × IsReady (order_of u) v
unfolding new_transport
handshake_agrees a_big b_big a_handler b_handler a_server b_server h =
    let a = new_transport a_big a_handler a_server true in
    let b = new_transport b_big b_handler b_server true in
    (
      heard b a,
      heard a b,
      recv_signature-heard a b h,
      recv_signature-heard b a (ground arith),
      ground arith,
      ground arith,
    )
