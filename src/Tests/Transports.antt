-- ===== src/Tests/Transports.antt =====
-- Runs of the transport.
use libpinggy.Prelude.{
  false, ℕ, ◌≤◌, ◌≡◌, refl, Bool, true, false, List, [], ◌∷◌, ◌++◌, length, ok, aborted, All,
  if◌then◌else◌, arith,
}
use libpinggy.Transport.State.{serialize_u16, Transport, wrote, write_later, new_transport}
use libpinggy.Transport.Sending.{send_value, handle_fd_write, signature_of, serializer_start}
use libpinggy.Transport.Receiving.{received, recv_signature, handle_fd_read}
use libpinggy.Transport.Stream.{wire, frame, order_of, send_value-frames, handle_fd_write-wire}
use libpinggy.Transport.Frames.{
  frames, IsBody, effects_of, reads, IsReady, reads-frames, empty_frame_aborts,
}
use libpinggy.Transport.Handshake.{handshake_agrees}

-- A transport on a little-endian host, past the handshake. The connection takes two bytes of the
-- next write.
abbrev open_link : Transport
open_link = record {
  big_endian = false;
  has_handler = true;
  sender_queue = [];
  enable_pinggy_value = false;
  reading_header = true;
  recv_raw_data = [];
  expected_len = 2;
  mismatched_endianness = false;
  signature_sent = true;
  signature_rcvd = true;
  mismatched_endian_serialize = false;
  is_server = false;
  end_transport = false;
  answers = wrote 1 ∷ write_later ∷ [];
  outputs = [];
}

send_value-frames_example :
    (u : Transport) × (sent : Bool) × (send_value [] (7 ∷ 8 ∷ []) open_link ≡ ok (u, sent))
    × (sent ≡ true)
    × (wire u ≡ (if sent then [] ++ ([] ++ frame false (serializer_start ++ (7 ∷ 8 ∷ []))) else []))
    × (sent ≡ false → u ≡ open_link)
send_value-frames_example = send_value-frames [] (7 ∷ 8 ∷ []) open_link refl refl

abbrev loaded : Transport
loaded = record open_link { sender_queue = (3 ∷ 0 ∷ 1 ∷ []) ∷ (7 ∷ 8 ∷ []) ∷ [] }

handle_fd_write-wire_example :
    (u : Transport) × (handle_fd_write loaded ≡ ok u) × (wire u ≡ 3 ∷ 0 ∷ 1 ∷ 7 ∷ 8 ∷ [])
handle_fd_write-wire_example = handle_fd_write-wire loaded refl

open_link-IsReady : IsReady false open_link
open_link-IsReady = record {
  signed = refl;
  order = refl;
  header = refl;
  expected = refl;
  empty = refl;
}

abbrev two_bodies : List (List ℕ)
two_bodies = (2 ∷ 9 ∷ []) ∷ (1 ∷ 7 ∷ 8 ∷ []) ∷ []

two_bodies-IsBody : All IsBody two_bodies
two_bodies-IsBody = ((omega arith, omega arith), ((omega arith, omega arith), tt))

-- Nine bytes, of which each read brings one.
abbrev one_by_one : List ℕ
one_by_one = 0 ∷ 0 ∷ 0 ∷ 0 ∷ 0 ∷ 0 ∷ 0 ∷ 0 ∷ 0 ∷ []

enough_reads : length (frames false two_bodies) ≤ length one_by_one
unfolding serialize_u16
enough_reads = omega arith

reads-frames_example :
    (u : Transport) × (reads one_by_one (open_link, frames false two_bodies) ≡ ok (u, []))
    × (u.outputs ≡ effects_of true false two_bodies)
    × IsReady false u
reads-frames_example =
    reads-frames false one_by_one open_link two_bodies open_link-IsReady two_bodies-IsBody
      enough_reads

empty_frame_aborts_example :
    (u : Transport) × (handle_fd_read (received (frame false [])) open_link ≡ ok u)
    × (handle_fd_read (received (5 ∷ [])) u ≡ aborted)
empty_frame_aborts_example =
    empty_frame_aborts false (received (5 ∷ [])) open_link open_link-IsReady

-- A big-endian client and a little-endian server.
handshake_agrees_example :
    (u : Transport) × (v : Transport) × (recv_signature
        (signature_of (new_transport false true true true))
        (new_transport true true false true)
      ≡ ok u)
    × (recv_signature
          (signature_of (new_transport true true false true))
          (new_transport false true true true)
        ≡ ok v)
    × IsReady (order_of v) u
    × IsReady (order_of u) v
handshake_agrees_example = handshake_agrees true false true true false true refl
