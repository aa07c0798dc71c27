-- ===== src/Tests/Numbers.antt =====
-- Runs of the search for a channel number.
use libpinggy.Prelude.{ℕ, ◌≡◌, refl, Bool, false, ◌==◌, arith, ◌||◌}
use libpinggy.Ids.{new_channel_id, search_id, first_channel_id, found}
use libpinggy.Ids.Fresh.{InCycle, Answer, new_channel_id-Answer}

-- 6 and 8 are taken.
abbrev busy : ℕ → Bool
busy i = (i == 6) || (i == 8)

client_cycle : InCycle 4 4
client_cycle = record { low = omega arith; high = omega arith; parity = refl }

new_channel_id-Answer_example : Answer busy 4 client_cycle (new_channel_id busy 4)
new_channel_id-Answer_example = new_channel_id-Answer busy 4 client_cycle

-- The first numbers, with the rounds that they need.
busy-search : search_id 3 busy 4 6 ≡ found 10
unfolding search_id
busy-search = refl

first_is_4 : InCycle (first_channel_id false) 4
unfolding first_channel_id
first_is_4 = client_cycle

busy-found : new_channel_id busy 4 ≡ found 10
unfolding new_channel_id search_id
busy-found = refl
