-- ===== src/Transport/State.antt =====
-- src/protocol/transport/TransportManager.hh: the members, and the numbers of TransportCommon.hh as they
-- stand on the wire. A queued or received piece of data is its bytes (`RawData.View`).
use libpinggy.Prelude.{
  ℕ, ◌+◌, ◌*◌, ◌/◌, ◌%◌, Bool, true, false, not, List, [], ◌∷◌, ◌++◌, if◌then◌else◌, bytes,
}

-- What a `Write` of the connection does: it takes some bytes, one more than the number here but no
-- more than there are; or none, to be tried again; or none, since the connection is lost.
pub data WriteResult : Type 0 where
  wrote : ℕ → WriteResult
  write_later write_failed : WriteResult

-- Calls of the connections, of the event handler, and of the registry and the deserializer. A
-- message and a path definition hold the bytes behind the byte that says which they are.
pub data Output : Type 0 where
  written : List ℕ → Output
  enable_write_poll disable_write_poll close_connections : Output
  connection_reset incomplete_handshake ready_to_send : Output
  path_definition : List ℕ → Output
  incoming : (pinggy_value : Bool) → List ℕ → Output

-- `big_endian` is the constant `IS_BIG_ENDIAN` of the host. A null `recvRawData` is an empty one.
pub record Transport : Type 0 where
  pub big_endian : Bool
  pub has_handler : Bool
  pub sender_queue : List (List ℕ)  -- oldest first
  pub enable_pinggy_value : Bool
  pub reading_header : Bool
  pub recv_raw_data : List ℕ
  pub expected_len : ℕ
  pub mismatched_endianness : Bool
  pub signature_sent : Bool
  pub signature_rcvd : Bool
  pub mismatched_endian_serialize : Bool
  pub is_server : Bool
  pub end_transport : Bool
  pub answers : List WriteResult  -- of the connection, to the writes to come; then it takes all
  pub outputs : List Output  -- oldest first

abbrev pub emit : Output → Transport → Transport
emit o t = record t { outputs = t.outputs ++ (o ∷ []) }

abbrev pub handshake_length : ℕ
handshake_length = 256

abbrev pub transport_header_length : ℕ
transport_header_length = 2

abbrev pub msg_type_value : ℕ
msg_type_value = 1

abbrev pub msg_type_type : ℕ
msg_type_type = 2

abbrev pub handshake_signature : List ℕ
handshake_signature =
    bytes "PINGGY                          "
    ++ (bytes "                                "
        ++ (bytes " ###  # #    #  ###   ### #   # "
            ++ (bytes " #  # # ##   # #     #     # #  "
                ++ (bytes " ###  # # #  # #  ## #  ##  #   "
                    ++ (bytes " #    # #  # # #   # #   #  #   "
                        ++ (bytes " #    # #   ##  ###   ###   #   "
                            ++ bytes "                                "))))))

unfoldable pub new_transport :
    (big_endian has_handler is_server handshake_required : Bool) → Transport
new_transport big_endian has_handler is_server handshake_required = record {
  big_endian = big_endian;
  has_handler = has_handler;
  sender_queue = [];
  enable_pinggy_value = false;
  reading_header = true;
  recv_raw_data = [];
  expected_len = if handshake_required then handshake_length else transport_header_length;
  mismatched_endianness = false;
  signature_sent = not handshake_required;
  signature_rcvd = not handshake_required;
  mismatched_endian_serialize = false;
  is_server = is_server;
  end_transport = false;
  answers = [];
  outputs = [];
}

-- Which byte comes first: the host's order, or the other one.
abbrev pub high_first : (big_endian swap : Bool) → Bool
high_first big_endian true = not big_endian
high_first big_endian false = big_endian

-- `Serialize_Lit` of a `uint16`, to which a longer length is cut.
unfoldable pub serialize_u16 : Bool → Bool → ℕ → List ℕ
serialize_u16 big_endian swap n =
    let low = n % 256 in
    let high = n / 256 % 256 in
    if high_first big_endian swap then high ∷ low ∷ [] else low ∷ high ∷ []

-- `Deserialize_Lit` of a `uint16`; fewer bytes throw, and there are two where it is called.
unfoldable pub deserialize_u16 : Bool → Bool → List ℕ → ℕ
deserialize_u16 big_endian swap (x ∷ y ∷ rest) =
    if high_first big_endian swap then x * 256 + y else y * 256 + x
deserialize_u16 big_endian swap xs = 0
