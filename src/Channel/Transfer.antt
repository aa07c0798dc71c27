-- ===== src/Channel/Transfer.antt =====
-- src/protocol/Channel.cc: `Send`, `Recv` and the window credit that `Recv` gives back.
use libpinggy.Prelude.{
  ℕ, zero, suc, ◌+◌, ◌-◌, ◌*◌, ◌/◌, Bool, true, not, ◌||◌, ltb, ◌==◌, ◌^◌, if◌then◌else◌, List, [],
  ◌∷◌, length, Option, none, some, ℤ, pos, negsuc, take, drop,
}
use libpinggy.Message.{channel_data, channel_window_adjust}
use libpinggy.RawData.View.{slice_bytes, consume_bytes}
use libpinggy.Channel.State.{
  connected, close_responding, in_state, channel_window_size, u32, Channel, Effect, Step,
  send_or_queue,
}

-- The pieces that the loop of `Send` cuts off, and the last one. `none`: the fuel ran out.
unfoldable pub send_pieces : ℕ → ℕ → List ℕ → Option (List (List ℕ))
send_pieces zero max_data xs = none
send_pieces (suc fuel) max_data xs =
    let rest : Option (List (List ℕ)) = send_pieces fuel max_data (drop max_data xs) in
    if ltb max_data (length xs)
    then elim rest [ none ↦ none | some ps ↦ some (take max_data xs ∷ ps) ]
    else some (xs ∷ [])

abbrev pub data_effects : Channel → List (List ℕ) → List Effect
data_effects c [] = []
data_effects c (p ∷ ps) =
    send_or_queue (channel_data c.channel_id p) c.has_handler ∷ data_effects c ps

abbrev minus_one : ℤ
minus_one = negsuc 0

abbrev refuse {ℓ} : {R : Type ℓ} → Channel → R → Step R
refuse c r = record { channel = c; effects = []; result = r }

unfoldable pub send : ℕ → Channel → List ℕ → Option (Step ℤ)
send fuel c xs =
    if not c.allow_write
    then some (refuse c minus_one)
    else if ltb c.remote_window (length xs)
    then some (refuse c minus_one)
    else elim (send_pieces fuel c.remote_max_packet xs) [
      | none ↦ none
      | some ps ↦ some (record {
        channel = record c { remote_window = c.remote_window - length xs };
        effects = data_effects c ps;
        result = pos (length xs);
      })
    ]

-- Whether the consumed bytes are given back now. The arithmetic is that of `uint32`.
unfoldable pub credit_due : Channel → Bool
credit_due c =
    ltb (u32 (3 * c.local_max_packet)) (u32 (channel_window_size + 2 ^ 32 - c.local_window))
    || ltb c.local_window (channel_window_size / 2)

unfoldable pub adjust_window : Channel → ℕ → Channel × List Effect
adjust_window c len =
    let consumed = u32 (c.local_consumed + len) in
    if credit_due c
    then (
      record c { local_consumed = 0; local_window = u32 (c.local_window + consumed) },
      (if consumed == 0
          then []
          else send_or_queue (channel_window_adjust c.channel_id consumed) c.has_handler ∷ []),
    )
    else (record c { local_consumed = consumed }, [])

-- `top->Len > len`, with a length that may be negative.
abbrev pub longer : ℕ → ℤ → Bool
longer n (pos m) = ltb m n
longer n (negsuc m) = true

-- What `Recv` takes from the queue, and the queue that is left.
unfoldable pub take_front : List ℕ → List (List ℕ) → ℤ → List ℕ × List (List ℕ)
take_front top rest len =
    if longer (length top) len
    then (slice_bytes (pos 0) len top, consume_bytes len top ∷ rest)
    else (top, rest)

unfoldable pub recv_from : List (List ℕ) → Channel → ℤ → Step (ℤ × Option (List ℕ))
recv_from [] c len =
    refuse c (if in_state c.state (close_responding ∷ []) then pos 0 else minus_one, none)
recv_from (top ∷ rest) c len =
    let (raw, queue) = take_front top rest len in
    let (c', effects) = adjust_window (record c { recv_queue = queue }) (length raw) in
    record { channel = c'; effects = effects; result = (pos (length raw), some raw) }

unfoldable pub recv : Channel → ℤ → Step (ℤ × Option (List ℕ))
recv c len =
    if in_state c.state (connected ∷ close_responding ∷ [])
    then recv_from c.recv_queue c len
    else refuse c (negsuc 1, none)

unfoldable pub have_data_to_read : Channel → Bool
have_data_to_read c = ltb 0 (length c.recv_queue) || in_state c.state (close_responding ∷ [])

unfoldable pub have_buffer_to_write : Channel → ℕ
have_buffer_to_write c = c.remote_window
