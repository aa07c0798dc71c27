-- ===== src/Transport/Frames.antt =====
-- What the reading end makes of a stream of frames, however its bytes arrive.
use libpinggy.Prelude.{
  subst, ℕ, suc, ◌-◌, ◌^◌, ◌<◌, ◌≤◌, ◌≡◌, refl, ap, ◌∙◌, sym, Bool, true, false, ltb, ◌==◌, List,
  [], ◌∷◌, ◌++◌, append_assoc, append-nil, take, drop, length, length-append, length-take,
  length-drop, take-append, drop-append, take-append-drop, take-length, drop-length, All,
  if◌then◌else◌, Outcome, ok, aborted, ◌>>=◌, arith, Bool-cases, inl, inr, ◌&&◌, List-cases,
}
use libpinggy.Transport.State.{
  Output, Transport, path_definition, incoming, high_first, serialize_u16, deserialize_u16,
}
use libpinggy.Transport.Receiving.{
  ReadResult, received, read_later, parse_header, parse_content, parse_data, parse, to_be_len,
  read_part, handle_fd_read,
}
use libpinggy.Transport.Stream.{frame}

-- The stream of some bodies.
abbrev pub frames : Bool → List (List ℕ) → List ℕ
frames big [] = []
frames big (b ∷ bs) = frame big b ++ frames big bs

-- A frame is not empty, and its length fits its two bytes.
abbrev pub IsBody : List ℕ → Type 0
IsBody b = (0 < length b) × (length b < 2 ^ 16)

-- What is done for one body, by its first byte, with a handler or without.
abbrev effect_of : Bool → Bool → List ℕ → List Output
effect_of handler value [] = []
effect_of handler value (kind ∷ content) =
    if kind == 2
    then path_definition content ∷ []
    else if (kind == 1) && handler
    then incoming value content ∷ []
    else []

abbrev pub effects_of : Bool → Bool → List (List ℕ) → List Output
effects_of handler value [] = []
effects_of handler value (b ∷ bs) = effect_of handler value b ++ effects_of handler value bs

-- One read event: the connection has `avail`, and gives one byte more than `n`, or all that is asked
-- for, or all that it has.
unfoldable pub read_some : ℕ → Transport × List ℕ → Outcome (Transport × List ℕ)
read_some n (t, []) = handle_fd_read read_later t >>= λ u. ok (u, [])
read_some n (t, x ∷ avail) =
    let k = if ltb n (to_be_len t) then suc n else to_be_len t in
    handle_fd_read (received (take k (x ∷ avail))) t >>= λ u. ok (u, drop k (x ∷ avail))

pub reads : List ℕ → Transport × List ℕ → Outcome (Transport × List ℕ)
reads [] s = ok s
reads (n ∷ ns) s = read_some n s >>= λ r. reads ns r

-- Between two frames or in a header; or in a body.
data Place (big : Bool) (t : Transport) (avail : List ℕ) (bs : List (List ℕ)) : Type 0 where
  in_header :
      t.reading_header ≡ true
      → t.expected_len ≡ 2
      → length t.recv_raw_data < 2
      → t.recv_raw_data ++ avail ≡ frames big bs
      → Place big t avail bs
  in_body :
      (c : List ℕ) (cs : List (List ℕ))
      → bs ≡ c ∷ cs
      → t.reading_header ≡ false
      → t.expected_len ≡ length c
      → length t.recv_raw_data < length c
      → t.recv_raw_data ++ avail ≡ c ++ frames big cs
      → Place big t avail bs

record Pending (big : Bool) (t : Transport) (avail : List ℕ) (bs : List (List ℕ)) : Type 0 where
  signed : t.signature_rcvd ≡ true
  order : high_first t.big_endian t.mismatched_endianness ≡ big
  bodies : All IsBody bs
  place : Place big t avail bs

record Goes (big : Bool) (t : Transport) (bs : List (List ℕ)) (u : Transport) (rest : List ℕ)
    : Type 0 where
  left : List (List ℕ)
  pending : Pending big u rest left
  done :
      u.outputs ++ effects_of t.has_handler t.enable_pinggy_value left
      ≡ t.outputs ++ effects_of t.has_handler t.enable_pinggy_value bs
  handler : u.has_handler ≡ t.has_handler
  value : u.enable_pinggy_value ≡ t.enable_pinggy_value

split_at :
    (xs ys zs ws : List ℕ) → length xs ≡ length zs → xs ++ ys ≡ zs ++ ws → (xs ≡ zs) × (ys ≡ ws)
split_at xs ys zs ws h e = (
  sym (take-append (length xs) xs ys refl)
      ∙ ap (λ l. take (length xs) l) e
      ∙ take-append (length xs) zs ws (sym h),
  sym (drop-append (length xs) xs ys refl)
      ∙ ap (λ l. drop (length xs) l) e
      ∙ drop-append (length xs) zs ws (sym h),
)

length-serialize : (big : Bool) (n : ℕ) → length (serialize_u16 big false n) ≡ 2
unfolding serialize_u16
length-serialize big n = ground arith

deserialize-serialize :
    (big_endian swap : Bool) (n : ℕ)
    → n < 2 ^ 16
    → deserialize_u16 big_endian swap (serialize_u16 (high_first big_endian swap) false n) ≡ n
unfolding serialize_u16 deserialize_u16
deserialize-serialize big_endian swap n h = ground arith

-- What the parser of a body changes.
record Parsed (xs : List ℕ) (t u : Transport) : Type 0 where
  outputs : u.outputs ≡ t.outputs ++ effect_of t.has_handler t.enable_pinggy_value xs
  signed : u.signature_rcvd ≡ t.signature_rcvd
  big : u.big_endian ≡ t.big_endian
  swap : u.mismatched_endianness ≡ t.mismatched_endianness
  recv : u.recv_raw_data ≡ t.recv_raw_data
  handler : u.has_handler ≡ t.has_handler
  value : u.enable_pinggy_value ≡ t.enable_pinggy_value

parse_content-Same : (xs : List ℕ) (t : Transport) → Parsed xs t (parse_content xs t)
unfolding parse_content
parse_content-Same [] t = ground (arith, append-nil t.outputs)
parse_content-Same (kind ∷ content) t = ground (arith, append-nil t.outputs)

module _ (big : Bool) (t : Transport) (xs avail : List ℕ) (bs : List (List ℕ))
    (p : Pending big t (xs ++ avail) bs) where
  -- Less than a piece has come in.
  still_waiting :
      length (t.recv_raw_data ++ xs) < t.expected_len
      → Goes big t bs (record t { recv_raw_data = t.recv_raw_data ++ xs }) avail
  still_waiting h = record {
    left = bs;
    pending = record { signed = p.signed; order = p.order; bodies = p.bodies; place = go p.place };
    done = refl;
    handler = refl;
    value = refl;
  }
    where
      go :
          Place big t (xs ++ avail) bs
          → Place big (record t { recv_raw_data = t.recv_raw_data ++ xs }) avail bs
      go (in_header r l s e) =
          in_header r l (ground arith) (append_assoc t.recv_raw_data xs avail ∙ e)
      go (in_body c cs q r l s e) =
          in_body c cs q r l (ground arith) (append_assoc t.recv_raw_data xs avail ∙ e)

  -- A header is complete.
  header_done :
      (b : List ℕ) (cs : List (List ℕ))
      → bs ≡ b ∷ cs
      → length (t.recv_raw_data ++ xs) ≡ 2
      → t.recv_raw_data ++ (xs ++ avail) ≡ frames big (b ∷ cs)
      → Goes big t bs (parse_header (t.recv_raw_data ++ xs) (record t { recv_raw_data = [] })) avail
  unfolding parse_header
  header_done b cs q h e =
      let bodies : All IsBody (b ∷ cs) = subst (λ l. All IsBody l) q p.bodies in
      let same : (t.recv_raw_data ++ xs) ++ avail
          ≡ serialize_u16 big false (length b) ++ (b ++ frames big cs) =
        append_assoc t.recv_raw_data xs avail
        ∙ e
        ∙ append_assoc (serialize_u16 big false (length b)) b (frames big cs) in
      let (head, tail) =
        split_at (t.recv_raw_data ++ xs) avail (serialize_u16 big false (length b))
          (b ++ frames big cs) (h ∙ sym (length-serialize big (length b))) same in
      let size : deserialize_u16 t.big_endian t.mismatched_endianness (t.recv_raw_data ++ xs)
          ≡ length b =
        ap (deserialize_u16 t.big_endian t.mismatched_endianness) head
        ∙ ap
            (λ o.
              deserialize_u16 t.big_endian t.mismatched_endianness
                (serialize_u16 o false (length b)))
            (sym p.order)
        ∙ deserialize-serialize t.big_endian t.mismatched_endianness (length b) bodies.0.1 in
      record {
        left = bs;
        pending = record {
          signed = p.signed;
          order = p.order;
          bodies = p.bodies;
          place = in_body b cs q refl size bodies.0.0 tail;
        };
        done = refl;
        handler = refl;
        value = refl;
      }

  -- A body is complete.
  body_done :
      (b : List ℕ) (cs : List (List ℕ))
      → bs ≡ b ∷ cs
      → length (t.recv_raw_data ++ xs) ≡ length b
      → t.recv_raw_data ++ (xs ++ avail) ≡ b ++ frames big cs
      → Goes big t bs (parse_data (t.recv_raw_data ++ xs) (record t { recv_raw_data = [] })) avail
  unfolding parse_data
  body_done b cs q h e =
      let bodies : All IsBody (b ∷ cs) = subst (λ l. All IsBody l) q p.bodies in
      let same = append_assoc t.recv_raw_data xs avail ∙ e in
      let (body, tail) = split_at (t.recv_raw_data ++ xs) avail b (frames big cs) h same in
      let u : Transport = record t { recv_raw_data = [] } in
      let s = parse_content-Same (t.recv_raw_data ++ xs) u in
      record {
        left = cs;
        pending = record {
          signed = s.signed ∙ p.signed;
          order = ground (arith, s.big, s.swap, p.order);
          bodies = bodies.1;
          place = in_header refl refl (rw s.recv (omega arith)) (rw s.recv tail);
        };
        done =
            rw (s.outputs, body, q)
              (append_assoc t.outputs (effect_of t.has_handler t.enable_pinggy_value b)
                (effects_of t.has_handler t.enable_pinggy_value cs));
        handler = s.handler;
        value = s.value;
      }

  -- The bytes that one read brings, which are no more than were asked for.
  module _ (most : length (t.recv_raw_data ++ xs) ≤ t.expected_len) where
    piece_done :
        length (t.recv_raw_data ++ xs) ≡ t.expected_len
        → (u : Transport) × (parse (t.recv_raw_data ++ xs) (record t { recv_raw_data = [] }) ≡ ok u)
          × Goes big t bs u avail
    unfolding parse
    piece_done h = go p.place
      where
        go :
            Place big t (xs ++ avail) bs
            → (u : Transport) × (parse (t.recv_raw_data ++ xs) (record t { recv_raw_data = [] })
                ≡ ok u)
              × Goes big t bs u avail
        go (in_header r l s e) = elim (List-cases bs) [
          | inl q ↦ absurd (
              ground (
                arith,
                length-append t.recv_raw_data xs,
                ap length e,
                length-append t.recv_raw_data (xs ++ avail),
                length-append xs avail,
              ))
          | inr (b, cs, q) ↦ (
            parse_header (t.recv_raw_data ++ xs) (record t { recv_raw_data = [] }),
            ground (arith, p.signed),
            header_done b cs q (h ∙ l) (e ∙ ap (frames big) q),
          )
        ]
        go (in_body b cs q r l s e) = (
          parse_data (t.recv_raw_data ++ xs) (record t { recv_raw_data = [] }),
          ground (arith, p.signed),
          body_done b cs q (h ∙ l) e,
        )

    read_part-Goes : (u : Transport) × (read_part (received xs) t ≡ ok u) × Goes big t bs u avail
    unfolding read_part
    read_part-Goes = elim (Bool-cases (ltb (length (t.recv_raw_data ++ xs)) t.expected_len)) [
      | inl h ↦ (
        record t { recv_raw_data = t.recv_raw_data ++ xs },
        ground arith,
        still_waiting (ground arith),
      )
      | inr h ↦
          let all = t.recv_raw_data ++ xs in
          let full : length all ≡ t.expected_len = ground arith in
          let (u, e, g) = piece_done full in
          (
            u,
            rw
                (
                  h,
                  take-length t.expected_len all (omega arith),
                  drop-length t.expected_len all (omega arith),
                )
                e,
            g,
          )
    ]

-- The next read asks for something, and for no more than the limit.
asks :
    (big : Bool) (t : Transport) (avail : List ℕ) (bs : List (List ℕ))
    → Pending big t avail bs
    → (0 < to_be_len t) × (to_be_len t < 2 ^ 16) × (length t.recv_raw_data ≤ t.expected_len)
asks big t avail bs p = go p.place
  where
    go :
        Place big t avail bs
        → (0 < to_be_len t) × (to_be_len t < 2 ^ 16) × (length t.recv_raw_data ≤ t.expected_len)
    go (in_header r l s e) = (omega (arith, l, s), omega (arith, l, s), omega (arith, l, s))
    go (in_body c cs q r l s e) =
        let size = (subst (λ l. All IsBody l) q p.bodies).0.1 in
        (omega (arith, l, s), omega (arith, l, s, size), omega (arith, l, s))

read_some-Goes :
    (big : Bool) (n : ℕ) (t : Transport) (avail : List ℕ) (bs : List (List ℕ))
    → Pending big t avail bs
    → (u : Transport) × (rest : List ℕ) × (read_some n (t, avail) ≡ ok (u, rest))
      × Goes big t bs u rest
      × (length rest ≤ length avail - 1)
unfolding read_some handle_fd_read
read_some-Goes big n t [] bs p =
    let (some_left, small, fits) = asks big t [] bs p in
    (
      t,
      [],
      unfold read_part in ground arith,
      record { left = bs; pending = p; done = refl; handler = refl; value = refl },
      omega arith,
    )
read_some-Goes big n t (x ∷ avail) bs p =
    let (some_left, small, fits) = asks big t (x ∷ avail) bs p in
    let k : ℕ = if ltb n (to_be_len t) then suc n else to_be_len t in
    let xs : List ℕ = take k (x ∷ avail) in
    let rest : List ℕ = drop k (x ∷ avail) in
    let enough : k ≤ to_be_len t = ground arith in
    let some_read : 0 < k = ground arith in
    let p' : Pending big t (xs ++ rest) bs =
      subst (λ l. Pending big t l bs) (sym (take-append-drop k (x ∷ avail))) p in
    let most : length (t.recv_raw_data ++ xs) ≤ t.expected_len =
      omega (arith, length-append t.recv_raw_data xs, length-take k (x ∷ avail), enough, fits) in
    let (u, e, g) = read_part-Goes big t xs rest bs p' most in
    (u, rest, ground arith, g, omega (arith, length-drop k (x ∷ avail), some_read))

Goes-trans :
    {big : Bool} {t u v : Transport} {bs : List (List ℕ)} {rest more : List ℕ}
    → (g : Goes big t bs u rest) → Goes big u g.left v more
    → Goes big t bs v more
Goes-trans g h = record {
  left = h.left;
  pending = h.pending;
  done = rw (← g.handler, ← g.value) h.done ∙ g.done;
  handler = h.handler ∙ g.handler;
  value = h.value ∙ g.value;
}

reads-Goes :
    (big : Bool) (ns : List ℕ) (t : Transport) (avail : List ℕ) (bs : List (List ℕ))
    → Pending big t avail bs
    → (u : Transport) × (rest : List ℕ) × (reads ns (t, avail) ≡ ok (u, rest))
      × Goes big t bs u rest
      × (length rest ≤ length avail - length ns)
unfolding reads
reads-Goes big [] t avail bs p = (
  t,
  avail,
  refl,
  record { left = bs; pending = p; done = refl; handler = refl; value = refl },
  omega arith,
)
reads-Goes big (n ∷ ns) t avail bs p =
    let (u, rest, e, g, less) = read_some-Goes big n t avail bs p in
    let (v, more, f, h, least) = reads-Goes big ns u rest g.left g.pending in
    (v, more, rw (e, f), Goes-trans g h, omega (arith, less, least))

-- A transport that has had the peer's signature, and stands between two frames.
pub record IsReady (big : Bool) (t : Transport) : Type 0 where
  pub signed : t.signature_rcvd ≡ true
  pub order : high_first t.big_endian t.mismatched_endianness ≡ big
  pub header : t.reading_header ≡ true
  pub expected : t.expected_len ≡ 2
  pub empty : t.recv_raw_data ≡ []

-- With nothing on the way, all bodies have been handled.
drained :
    (big : Bool) (t : Transport) (bs : List (List ℕ))
    → Pending big t [] bs
    → (bs ≡ []) × IsReady big t
drained big t bs p = go p.place
  where
    go : Place big t [] bs → (bs ≡ []) × IsReady big t
    go (in_header r l s e) = elim (List-cases bs) [
      | inl q ↦ (
        q,
        record {
          signed = p.signed;
          order = p.order;
          header = r;
          expected = l;
          empty = sym (append-nil t.recv_raw_data) ∙ e ∙ ap (frames big) q;
        },
      )
      | inr (b, cs, q) ↦ absurd (
          omega (
            arith,
            s,
            ap length (sym (append-nil t.recv_raw_data) ∙ e ∙ ap (frames big) q),
            length-append (frame big b) (frames big cs),
            length-append (serialize_u16 big false (length b)) b,
            length-serialize big (length b),
          ))
    ]
    go (in_body c cs q r l s e) = absurd (
        omega (
          arith,
          s,
          ap length (sym (append-nil t.recv_raw_data) ∙ e),
          length-append c (frames big cs),
        ))

-- However the bytes of a stream of frames arrive, in pieces of any sizes, the reading end handles
-- each frame once and in order, and nothing else; it never ends the process, needs no more read
-- events than there are bytes, and is then ready for the next frame.
pub reads-frames :
    (big : Bool) (ns : List ℕ) (t : Transport) (bs : List (List ℕ))
    → IsReady big t
    → All IsBody bs
    → length (frames big bs) ≤ length ns
    → (u : Transport) × (reads ns (t, frames big bs) ≡ ok (u, []))
      × (u.outputs ≡ t.outputs ++ effects_of t.has_handler t.enable_pinggy_value bs)
      × IsReady big u
reads-frames big ns t bs r bodies enough =
    let p : Pending big t (frames big bs) bs = record {
      signed = r.signed;
      order = r.order;
      bodies = bodies;
      place =
          in_header r.header r.expected (rw r.empty (omega arith))
            (ap (λ l. l ++ frames big bs) r.empty);
    } in
    let (u, rest, e, g, least) = reads-Goes big ns t (frames big bs) bs p in
    let none : rest ≡ [] = elim (List-cases rest) [
      | inl q ↦ q
      | inr (x, xs, q) ↦ absurd (omega (arith, least, enough, ap length q))
    ] in
    let (all_done, ready) =
      drained big u g.left (subst (λ l. Pending big u l g.left) none g.pending) in
    let done = g.done in
    (
      u,
      rw (e, none),
      sym (append-nil u.outputs)
          ∙ ap (λ l. u.outputs ++ effects_of t.has_handler t.enable_pinggy_value l) (sym all_done)
          ∙ g.done,
      ready,
    )

-- A frame of length 0 ends the process of the end that gets it: whatever the connection does at the
-- read after its header, that read asks for no byte and aborts.
pub empty_frame_aborts :
    (big : Bool) (r : ReadResult) (t : Transport)
    → IsReady big t
    → (u : Transport) × (handle_fd_read (received (frame big [])) t ≡ ok u)
      × (handle_fd_read r u ≡ aborted)
unfolding handle_fd_read read_part parse parse_header serialize_u16 deserialize_u16
empty_frame_aborts big r t h = (
  record t { recv_raw_data = []; expected_len = 0; reading_header = false },
  ground (arith, h.signed, h.header, h.expected, h.empty),
  ground arith,
)
