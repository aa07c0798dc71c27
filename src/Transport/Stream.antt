-- ===== src/Transport/Stream.antt =====
-- src/protocol/transport/TransportManager.cc, the order of bytes: what was written to the connection, followed by what waits.
use libpinggy.Prelude.{
  ℕ, suc, ◌≡◌, refl, ap, ◌∙◌, sym, Bool, true, false, List, [], ◌∷◌, ◌++◌, concat, append_assoc,
  append-nil, take, drop, length, take-append-drop, if◌then◌else◌, Outcome, ok, arith, List-cases,
  inl, inr,
}
use libpinggy.Transport.State.{
  WriteResult, wrote, write_later, write_failed, Output, Transport, written, enable_write_poll,
  disable_write_poll, close_connections, connection_reset, incomplete_handshake, ready_to_send,
  path_definition, incoming, emit, serialize_u16, high_first,
}
use libpinggy.Transport.Sending.{
  next_answer, queue_data, written_part, send_or_queue_in, send_or_queue_data, send_frame,
  send_header, send_msg_in, send_msg, get_serializer, send_value, serializer_start, close_if_sent,
  flushed_part, handle_fd_write_in, handle_fd_write,
}

abbrev bytes_written : List Output → List ℕ
bytes_written [] = []
bytes_written (written xs ∷ os) = xs ++ bytes_written os
bytes_written (o ∷ os) = bytes_written os

abbrev pub wire : Transport → List ℕ
wire t = bytes_written t.outputs ++ concat t.sender_queue

-- The connection is not lost at any of the writes to come.
abbrev stays_up : List WriteResult → Bool
stays_up [] = true
stays_up (write_failed ∷ rs) = false
stays_up (r ∷ rs) = stays_up rs

bytes_written-append :
    (os ps : List Output) → bytes_written (os ++ ps) ≡ bytes_written os ++ bytes_written ps
bytes_written-append [] ps = refl
bytes_written-append (written xs ∷ os) ps =
    ap (λ ys. xs ++ ys) (bytes_written-append os ps)
    ∙ sym (append_assoc xs (bytes_written os) (bytes_written ps))
bytes_written-append (enable_write_poll ∷ os) ps = bytes_written-append os ps
bytes_written-append (disable_write_poll ∷ os) ps = bytes_written-append os ps
bytes_written-append (close_connections ∷ os) ps = bytes_written-append os ps
bytes_written-append (connection_reset ∷ os) ps = bytes_written-append os ps
bytes_written-append (incomplete_handshake ∷ os) ps = bytes_written-append os ps
bytes_written-append (ready_to_send ∷ os) ps = bytes_written-append os ps
bytes_written-append (path_definition xs ∷ os) ps = bytes_written-append os ps
bytes_written-append (incoming b xs ∷ os) ps = bytes_written-append os ps

concat-append : (xs ys : List (List ℕ)) → concat (xs ++ ys) ≡ concat xs ++ concat ys
concat-append [] ys = refl
concat-append (x ∷ xs) ys =
    ap (λ zs. x ++ zs) (concat-append xs ys) ∙ sym (append_assoc x (concat xs) (concat ys))

-- What sending adds to the stream; the members that frames depend on stay.
record Adds (xs : List ℕ) (t u : Transport) : Type 0 where
  pub stream : wire u ≡ wire t ++ xs
  pub up : stays_up u.answers ≡ true
  pub swap : u.mismatched_endian_serialize ≡ t.mismatched_endian_serialize
  pub order : u.big_endian ≡ t.big_endian
  pub signed : u.signature_sent ≡ t.signature_sent

Adds-trans : {xs ys : List ℕ} {t u v : Transport} → Adds xs t u → Adds ys u v → Adds (xs ++ ys) t v
Adds-trans {xs} {ys} {t} a b = record {
  stream = b.stream ∙ ap (λ zs. zs ++ ys) a.stream ∙ append_assoc (wire t) xs ys;
  up = b.up;
  swap = b.swap ∙ a.swap;
  order = b.order ∙ a.order;
  signed = b.signed ∙ a.signed;
}

abbrev is_empty : List (List ℕ) → Bool
is_empty [] = true
is_empty (x ∷ xs) = false

abbrev Sends : List ℕ → Transport → Outcome Transport → Type 0
Sends xs t o = (u : Transport) × (o ≡ ok u) × Adds xs t u

queue_data-Adds :
    (xs : List ℕ) (t : Transport) → stays_up t.answers ≡ true → Adds xs t (queue_data xs t)
unfolding queue_data
queue_data-Adds xs t h = record {
  stream =
      rw (concat-append t.sender_queue (xs ∷ []), append-nil xs)
        (sym (append_assoc (bytes_written t.outputs) (concat t.sender_queue) xs));
  up = h;
  swap = refl;
  order = refl;
  signed = refl;
}

-- A write on an empty queue: the bytes taken, then the bytes left.
written_part-Sends :
    (xs : List ℕ) (r : WriteResult) (t : Transport)
    → t.sender_queue ≡ []
    → stays_up (r ∷ t.answers) ≡ true
    → Sends xs t (written_part xs (r, t))
unfolding written_part queue_data
written_part-Sends xs write_later t q h = (
  emit enable_write_poll (queue_data xs t),
  refl,
  ground (
    arith,
    queue_data-Adds xs t,
    bytes_written-append t.outputs (enable_write_poll ∷ []),
    append-nil (bytes_written t.outputs),
    append-nil xs,
  ),
)
written_part-Sends xs write_failed t q h = absurd (ground arith)
written_part-Sends xs (wrote n) t q h = elim (List-cases (drop (suc n) xs)) [
  | inl e ↦ (
    emit (written (take (suc n) xs)) t,
    ground arith,
    ground (
      arith,
      bytes_written-append t.outputs (written (take (suc n) xs) ∷ []),
      take-append-drop (suc n) xs,
      append-nil (bytes_written t.outputs),
      append-nil (take (suc n) xs),
      append-nil (bytes_written t.outputs ++ take (suc n) xs),
    ),
  )
  | inr (y, ys, e) ↦
      let u : Transport = emit (written (take (suc n) xs)) t in
      (
        emit enable_write_poll (queue_data (y ∷ ys) u),
        ground arith,
        ground (
          arith,
          bytes_written-append t.outputs (written (take (suc n) xs) ∷ []),
          bytes_written-append u.outputs (enable_write_poll ∷ []),
          take-append-drop (suc n) xs,
          append-nil (bytes_written t.outputs),
          append-nil (take (suc n) xs),
          append-nil (y ∷ ys),
          append-nil (bytes_written t.outputs ++ take (suc n) xs),
          append_assoc (bytes_written t.outputs) (take (suc n) xs) (y ∷ ys),
        ),
      )
]

send_or_queue_data-Sends :
    (xs : List ℕ) (t : Transport) → stays_up t.answers ≡ true → Sends xs t (send_or_queue_data xs t)
unfolding send_or_queue_data send_or_queue_in next_answer
send_or_queue_data-Sends xs t h = by_queue t.sender_queue refl
  where
    by_answer :
        (rs : List WriteResult)
        → t.answers ≡ rs
        → t.sender_queue ≡ []
        → Sends xs t (written_part xs (next_answer rs xs t))
    by_answer [] e q = written_part-Sends xs (wrote (length xs)) t q (ground arith)
    by_answer (r ∷ rs) e q =
        let u : Transport = record t { answers = rs } in
        let (v, p, a) = written_part-Sends xs r u q (ground arith) in
        (
          v,
          p,
          record {
            stream = a.stream;
            up = a.up;
            swap = a.swap;
            order = a.order;
            signed = a.signed;
          },
        )

    by_queue : (q : List (List ℕ)) → t.sender_queue ≡ q → Sends xs t (send_or_queue_in q xs t)
    by_queue [] q = by_answer t.answers refl q
    by_queue (x ∷ qs) q = (queue_data xs t, refl, queue_data-Adds xs t h)

-- A frame: the length in the order that the two ends agreed on, and the content.
abbrev pub frame : (high_first : Bool) → List ℕ → List ℕ
frame big xs = serialize_u16 big false (length xs) ++ xs

serialize_swap :
    (big swap : Bool) (n : ℕ)
    → serialize_u16 big swap n ≡ serialize_u16 (high_first big swap) false n
unfolding serialize_u16
serialize_swap big swap n = ground arith

abbrev pub order_of : Transport → Bool
order_of t = high_first t.big_endian t.mismatched_endian_serialize

send_frame-Sends :
    (xs : List ℕ) (t : Transport)
    → stays_up t.answers ≡ true
    → Sends (frame (order_of t) xs) t (send_frame xs t)
unfolding send_frame
send_frame-Sends xs t h =
    let n = length xs in
    let size = serialize_u16 t.big_endian t.mismatched_endian_serialize n in
    let (u, e, a) = send_or_queue_data-Sends size t h in
    let (v, f, b) = send_or_queue_data-Sends xs u a.up in
    (
      v,
      ground arith,
      rw (← serialize_swap t.big_endian t.mismatched_endian_serialize n) (Adds-trans a b),
    )

-- The frames of one message: first the one of the new paths, if there are any.
abbrev header_frame : Bool → List ℕ → List ℕ
header_frame big [] = []
header_frame big (x ∷ xs) = frame big (x ∷ xs)

send_header-Sends :
    (header : List ℕ) (t : Transport)
    → stays_up t.answers ≡ true
    → Sends (header_frame (order_of t) header) t (send_header header t)
unfolding send_header
send_header-Sends [] t h = (
  t,
  refl,
  record { stream = sym (append-nil (wire t)); up = h; swap = refl; order = refl; signed = refl },
)
send_header-Sends (x ∷ xs) t h = send_frame-Sends (x ∷ xs) t h

-- Once the signature is out and while the connection is not lost, a message is sent whole or not at
-- all: the call returns; if nothing waited, the stream grows by the frame of the new paths, if there
-- are any, and the message's own; otherwise the message is refused and the transport is as before.
pub send_value-frames :
    (header content : List ℕ) (t : Transport)
    → t.signature_sent ≡ true
    → stays_up t.answers ≡ true
    → (u : Transport) × (sent : Bool) × (send_value header content t ≡ ok (u, sent))
      × (sent ≡ is_empty t.sender_queue)
      × (wire u ≡ (
          if sent
          then wire t
            ++ (header_frame (order_of t) header
                ++ frame (order_of t) (serializer_start ++ content))
          else wire t))
      × (sent ≡ false → u ≡ t)
unfolding send_value get_serializer send_msg send_msg_in
send_value-frames header content t s h = elim (List-cases t.sender_queue) [
  | inl e ↦
      let (u, p, a) = send_header-Sends header t h in
      let (v, q, b) = send_frame-Sends (serializer_start ++ content) u a.up in
      let body = serializer_start ++ content in
      let same : order_of u ≡ order_of t = ground (arith, a.swap, a.order) in
      let b' : Adds (frame (order_of t) body) u v = rw (← same) b in
      (v, true, ground arith, ground arith, (Adds-trans a b').stream, λ lie. absurd (ground arith))
  | inr (x, qs, e) ↦ (t, false, ground arith, ground arith, refl, λ same. refl)
]

close_if_sent-wire : (q : List (List ℕ)) (t : Transport) → wire (close_if_sent q t) ≡ wire t
unfolding close_if_sent
close_if_sent-wire [] t = ground (
  arith,
  bytes_written-append t.outputs (close_connections ∷ []),
  append-nil (bytes_written t.outputs),
)
close_if_sent-wire (x ∷ q) t = refl

Flushes : Transport → Outcome Transport → Type 0
Flushes t o = (u : Transport) × (o ≡ ok u) × (wire u ≡ wire t)

module _ (front : List ℕ) (qs : List (List ℕ)) (t : Transport)
    (q : t.sender_queue ≡ front ∷ qs) where
  flushed_wrote : (n : ℕ) → Flushes t (flushed_part front qs (wrote n, t))
  unfolding flushed_part Flushes
  flushed_wrote n =
      let piece : List ℕ = take (suc n) front in
      let u : Transport = emit (written piece) t in
      let more : bytes_written u.outputs ≡ bytes_written t.outputs ++ piece =
        bytes_written-append t.outputs (written piece ∷ [])
        ∙ ap (λ zs. bytes_written t.outputs ++ zs) (append-nil piece) in
      elim (List-cases (drop (suc n) front)) [
        | inl e ↦
            let v : Transport = record u { sender_queue = qs } in
            let whole : piece ≡ front =
              ground (arith, take-append-drop (suc n) front, append-nil piece) in
            let same : wire v ≡ wire t =
              ap (λ zs. zs ++ concat qs) more
              ∙ append_assoc (bytes_written t.outputs) piece (concat qs)
              ∙ ground (arith, whole) in
            (
              (if v.end_transport then close_if_sent qs v else v),
              ground arith,
              ground (arith, close_if_sent-wire qs v, same),
            )
        | inr (y, ys, e) ↦
            let rest : List (List ℕ) = (y ∷ ys) ∷ qs in
            let whole : piece ++ ((y ∷ ys) ++ concat qs) ≡ front ++ concat qs =
              ground
                (arith, take-append-drop (suc n) front, append_assoc piece (y ∷ ys) (concat qs)) in
            (
              record u { sender_queue = rest },
              ground arith,
              ap (λ zs. zs ++ ((y ∷ ys) ++ concat qs)) more
                  ∙ append_assoc (bytes_written t.outputs) piece ((y ∷ ys) ++ concat qs)
                  ∙ ground (arith, whole),
            )
      ]

-- `HandleFDWrite` returns while the connection is not lost, and keeps the stream: what it writes is
-- the front of what waits.
pub handle_fd_write-wire :
    (t : Transport)
    → stays_up t.answers ≡ true
    → (u : Transport) × (handle_fd_write t ≡ ok u) × (wire u ≡ wire t)
unfolding handle_fd_write handle_fd_write_in next_answer Flushes
handle_fd_write-wire t h = by_queue t.sender_queue refl
  where
    by_answer :
        (front : List ℕ) (qs : List (List ℕ)) (rs : List WriteResult)
        → t.answers ≡ rs
        → t.sender_queue ≡ front ∷ qs
        → Flushes t (flushed_part front qs (next_answer rs front t))
    by_answer front qs [] e q = flushed_wrote front qs t q (length front)
    by_answer front qs (wrote n ∷ rs) e q = flushed_wrote front qs (record t { answers = rs }) q n
    by_answer front qs (write_later ∷ rs) e q =
        unfold flushed_part in (record t { answers = rs }, refl, refl)
    by_answer front qs (write_failed ∷ rs) e q = absurd (ground arith)

    by_queue : (q : List (List ℕ)) → t.sender_queue ≡ q → Flushes t (handle_fd_write_in q t)
    by_queue [] q =
        let u : Transport = emit disable_write_poll t in
        (
          (if u.has_handler then emit ready_to_send u else u),
          refl,
          ground (
            arith,
            bytes_written-append t.outputs (disable_write_poll ∷ []),
            bytes_written-append u.outputs (ready_to_send ∷ []),
            append-nil (bytes_written t.outputs),
          ),
        )
    by_queue (front ∷ qs) q = by_answer front qs t.answers refl q
