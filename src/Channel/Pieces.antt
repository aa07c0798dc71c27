-- ===== src/Channel/Pieces.antt =====
-- src/protocol/Channel.cc, `Send`: the pieces that it puts on the wire.
use libpinggy.Prelude.{
  ℕ, zero, suc, ◌+◌, ◌-◌, ◌≤◌, ◌<◌, ◌≡◌, refl, ap, true, ltb, List, [], ◌∷◌, length, take, drop,
  concat, All, take-append-drop, length-drop, length-take, append-nil, none, some, Option-cases,
  Bool-cases, inl, inr, ℤ, pos, arith,
}
use libpinggy.Message.{channel_data}
use libpinggy.Channel.State.{Channel, Effect, Step, send_or_queue}
use libpinggy.Channel.Transfer.{send_pieces, data_effects, send}

-- Enough fuel: one round more than there are bytes, when the peer takes packets at all.
pub send_pieces_total :
    (fuel max_data : ℕ) (xs : List ℕ)
    → 0 < max_data
    → length xs < fuel
    → (ps : List (List ℕ)) × (send_pieces fuel max_data xs ≡ some ps)
unfolding send_pieces
send_pieces_total zero max_data xs h e = absurd (omega arith)
send_pieces_total (suc fuel) max_data xs h e = elim (Bool-cases (ltb max_data (length xs))) [
  | inl long ↦
      let size : length (drop max_data xs) < fuel = ground (arith, length-drop max_data xs) in
      let (ps, p) = send_pieces_total fuel max_data (drop max_data xs) h size in
      (take max_data xs ∷ ps, rw (long, p))
  | inr short ↦ (xs ∷ [], rw short)
]

cut_off :
    (max_data : ℕ) (xs : List ℕ) (qs ps : List (List ℕ))
    → take max_data xs ∷ qs ≡ ps
    → concat qs ≡ drop max_data xs
    → All (λ p. length p ≤ max_data) qs
    → (concat ps ≡ xs) × All (λ p. length p ≤ max_data) ps
cut_off max_data xs qs ps e joined small =
    rw (← e)
      (rw (joined) (take-append-drop max_data xs), (omega (arith, length-take max_data xs), small))

pub send_pieces_join :
    (fuel max_data : ℕ) (xs : List ℕ) (ps : List (List ℕ))
    → send_pieces fuel max_data xs ≡ some ps
    → (concat ps ≡ xs) × All (λ p. length p ≤ max_data) ps
unfolding send_pieces
send_pieces_join zero max_data xs ps e = absurd (ground arith)
send_pieces_join (suc fuel) max_data xs ps e =
    elim (Option-cases (send_pieces fuel max_data (drop max_data xs))) [
      | inl stuck ↦ ground (arith, append-nil xs)
      | inr (qs, q) ↦ elim (Bool-cases (ltb max_data (length xs))) [
        | inl long ↦
            let (joined, small) = send_pieces_join fuel max_data (drop max_data xs) qs q in
            let whole : some (take max_data xs ∷ qs) ≡ some ps = rw (q, long) at e in
            cut_off max_data xs qs ps (cc whole) joined small
        | inr short ↦ ground (arith, append-nil xs)
      ]
    ]

-- With a peer that announced `MaxDataSize` 0, the loop of `Send` on data that is not empty is
-- endless: no fuel is enough.
pub send_pieces_endless : (fuel : ℕ) (x : ℕ) (xs : List ℕ) → send_pieces fuel 0 (x ∷ xs) ≡ none
unfolding send_pieces
send_pieces_endless zero x xs = refl
send_pieces_endless (suc fuel) x xs = ground (arith, send_pieces_endless fuel x xs)

-- The data messages among the calls.
abbrev payloads : List Effect → List (List ℕ)
payloads [] = []
payloads (send_or_queue (channel_data id p) h ∷ es) = p ∷ payloads es
payloads (e ∷ es) = payloads es

payloads-data_effects : (c : Channel) (ps : List (List ℕ)) → payloads (data_effects c ps) ≡ ps
payloads-data_effects c [] = refl
payloads-data_effects c (p ∷ ps) = ap (λ qs. p ∷ qs) (payloads-data_effects c ps)

-- What a finished call of `Send` has done.
pub record Sent (c : Channel) (xs : List ℕ) (s : Step ℤ) : Type 0 where
  pub joined : concat (payloads s.effects) ≡ xs
  pub small : All (λ p. length p ≤ c.remote_max_packet) (payloads s.effects)
  pub window : s.channel.remote_window + length xs ≡ c.remote_window
  pub result : s.result ≡ pos (length xs)

-- `Send` on a channel that may write, with data that fits the window, returns if the peer's packets
-- are not empty; it sends pieces within the packet size that join to the data, in order, and takes
-- their length off the window.
pub send-Sent :
    (c : Channel) (xs : List ℕ) (fuel : ℕ)
    → c.allow_write ≡ true
    → length xs ≤ c.remote_window
    → 0 < c.remote_max_packet
    → length xs < fuel
    → (s : Step ℤ) × (send fuel c xs ≡ some s) × Sent c xs s
unfolding send
send-Sent c xs fuel may fits some_room enough =
    let (ps, p) = send_pieces_total fuel c.remote_max_packet xs some_room enough in
    let (joined, small) = send_pieces_join fuel c.remote_max_packet xs ps p in
    let sent : Step ℤ = record {
      channel = record c { remote_window = c.remote_window - length xs };
      effects = data_effects c ps;
      result = pos (length xs);
    } in
    (
      sent,
      ground arith,
      record {
        joined = rw (payloads-data_effects c ps) joined;
        small = rw (payloads-data_effects c ps) small;
        window = omega arith;
        result = refl;
      },
    )
