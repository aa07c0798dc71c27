-- ===== src/Ids.antt =====
-- src/protocol/Session.cc: how a session numbers its channels (`getChannelNewId`) and which numbers it
-- takes from its peer (`validRemoteChannel`).
pub mod Fresh
use libpinggy.Prelude.{ℕ, zero, suc, ◌+◌, ◌%◌, Bool, true, false, ◌==◌, ltb, if◌then◌else◌, not}

abbrev chan_id_wrap_val : ℕ
chan_id_wrap_val = 0x3fff

-- `(i & CHAN_ID_WRAP_VAL) + 2`: the mask keeps the low 14 bits.
abbrev pub next_id : ℕ → ℕ
next_id i = i % (chan_id_wrap_val + 1) + 2

-- How the loop ends: with a free number, or back at the last one. `unfinished`: out of fuel.
pub data Search : Type 0 where
  found : ℕ → Search
  full unfinished : Search

unfoldable pub search_id : ℕ → (ℕ → Bool) → ℕ → ℕ → Search
search_id zero exists last i = unfinished
search_id (suc fuel) exists last i =
    let rest = search_id fuel exists last (next_id i) in
    if i == last then full else if exists i then rest else found i

-- The rounds that are always enough: there are 2 ^ 13 numbers of a parity.
abbrev pub id_rounds : ℕ
id_rounds = 0x2000

unfoldable pub new_channel_id : (ℕ → Bool) → ℕ → Search
new_channel_id exists last = search_id id_rounds exists last (next_id last)

-- `lastChannelId` of a new session.
unfoldable pub first_channel_id : Bool → ℕ
first_channel_id as_server = if as_server then 5 else 4

pub valid_remote_channel : Bool → ℕ → Bool
valid_remote_channel server_mode id =
    if ltb (chan_id_wrap_val + 2) id
    then false
    else if not server_mode
    then id % 2 == 1
    else id % 2 == 0
