-- ===== src/Ids/Fresh.antt =====
-- src/protocol/Session.cc, `getChannelNewId`: its search, as a walk around the numbers of one parity.
use libpinggy.Prelude.{
  ℕ, zero, suc, ◌+◌, ◌-◌, ◌/◌, ◌%◌, ◌≤◌, ◌<◌, ◌≡◌, ◌≢◌, refl, Bool, true, false, leb, not,
  if◌then◌else◌, arith,
}
use libpinggy.Ids.{
  next_id, Search, found, full, unfinished, search_id, id_rounds, new_channel_id, first_channel_id,
  valid_remote_channel,
}

-- The numbers that the loop runs through have one parity and lie between 2 and 0x4001.
pub record InCycle (last i : ℕ) : Type 0 where
  pub low : 2 ≤ i
  pub high : i ≤ 0x4001
  pub parity : i % 2 ≡ last % 2

-- The rounds from `i` on, until the loop is back at `last`.
abbrev rounds_left : ℕ → ℕ → ℕ
rounds_left last i = if leb i last then (last - i) / 2 else (last + 0x4000 - i) / 2

next_id-InCycle : (last i : ℕ) → InCycle last i → InCycle last (next_id i)
next_id-InCycle last i c = omega arith

rounds_left-next :
    (last i : ℕ)
    → InCycle last last
    → InCycle last i
    → i ≢ last
    → suc (rounds_left last (next_id i)) ≡ rounds_left last i
rounds_left-next last i l c h = ground arith

same_place :
    (last i k : ℕ)
    → InCycle last last
    → InCycle last i
    → InCycle last k
    → rounds_left last i ≡ rounds_left last k
    → i ≡ k
same_place last i k l c d e = ground arith

module _ (exists : ℕ → Bool) (last : ℕ) (l : InCycle last last) where
  search_ends :
      (fuel i : ℕ)
      → InCycle last i
      → rounds_left last i < fuel
      → search_id fuel exists last i ≢ unfinished
  unfolding search_id
  search_ends zero i c h = λ e. absurd (omega arith)
  search_ends (suc fuel) i c h =
      ground (
        arith,
        search_ends fuel (next_id i) (next_id-InCycle last i c),
        rounds_left-next last i l c,
      )

  search_found :
      (fuel i : ℕ)
      → InCycle last i
      → (j : ℕ) → search_id fuel exists last i ≡ found j
      → (exists j ≡ false) × (j ≢ last) × InCycle last j
  unfolding search_id
  search_found zero i c j e = absurd (ground arith)
  search_found (suc fuel) i c j e =
      ground (arith, search_found fuel (next_id i) (next_id-InCycle last i c) j)

  search_full :
      (fuel i k : ℕ)
      → InCycle last i
      → search_id fuel exists last i ≡ full
      → InCycle last k
      → rounds_left last k ≤ rounds_left last i
      → k ≢ last
      → exists k ≡ true
  unfolding search_id
  search_full zero i k c e d h n = absurd (ground arith)
  search_full (suc fuel) i k c e d h n = ground (
    arith,
    search_full fuel (next_id i) k (next_id-InCycle last i c),
    rounds_left-next last i l c,
    same_place last i k l c d,
  )

  -- The two ways in which a call ends.
  pub data Answer : Search → Type 0 where
    fresh : (j : ℕ) → exists j ≡ false → j ≢ last → InCycle last j → Answer (found j)
    none_left : ((k : ℕ) → InCycle last k → k ≢ last → exists k ≡ true) → Answer full

  answer : (r : Search) → new_channel_id exists last ≡ r → Answer r
  unfolding new_channel_id
  answer (found j) e =
      let (free, other, c) =
        search_found id_rounds (next_id last) (next_id-InCycle last last l) j e in
      fresh j free other c
  answer full e = none_left λ k c h.
      search_full id_rounds (next_id last) k (next_id-InCycle last last l) e c (ground arith) h
  answer unfinished e =
      absurd (search_ends id_rounds (next_id last) (next_id-InCycle last last l) (ground arith) e)

  -- `getChannelNewId` always ends, from any last number that it has given or started with. It gives
  -- a number that no channel has, other than the last one and of the same parity, below 0x4002; or,
  -- only when every other such number is taken, it fails.
  pub new_channel_id-Answer : Answer (new_channel_id exists last)
  new_channel_id-Answer = answer (new_channel_id exists last) refl

-- A number that one end gives to a channel of its own, from any last number of its own parity between
-- 2 and 0x4001, is valid at the other end, and is none that it would take from its peer.
pub new_channel_id-valid :
    (server : Bool) (exists : ℕ → Bool) (last j : ℕ)
    → InCycle (first_channel_id server) last
    → new_channel_id exists last ≡ found j
    → (valid_remote_channel (not server) j ≡ true) × (valid_remote_channel server j ≡ false)
unfolding new_channel_id first_channel_id valid_remote_channel
new_channel_id-valid server exists last j c e =
    let own : InCycle last last = record { low = c.low; high = c.high; parity = refl } in
    let h =
      search_found exists last own id_rounds (next_id last) (next_id-InCycle last last own) j e in
    ground (arith, h)
