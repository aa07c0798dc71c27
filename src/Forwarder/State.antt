-- ===== src/Forwarder/State.antt =====
-- src/protocol/ChannelConnectionForwarder.hh: the members of a forwarder, and what it does to others.
use libpinggy.Prelude.{
  ℕ, Bool, true, false, if◌then◌else◌, List, [], ◌∷◌, ◌++◌, ltb, leb, ◌||◌, ◌^◌,
}
use libpinggy.Message.{Text}
use libpinggy.Channel.State.{
  Channel, Effect, register_channel, deregister_channel, setup_close_timeout, send_msg,
  send_or_queue, notify,
}

-- A call on the connection. A read and a write hold the bytes that passed.
pub data ConnCall : Type 0 where
  register_handler deregister_handler close_conn : ConnCall
  enable_read_poll disable_read_poll enable_write_poll disable_write_poll : ConnCall
  raise_dummy_read_poll : ConnCall
  has_read has_written : List ℕ → ConnCall

-- What the poller watches for the handler of the connection, by the calls so far: whether there are bytes to read,
-- whether it takes bytes, and whether a dummy read was raised since reading was last turned off.
pub record Watch : Type 0 where
  pub for_read : Bool
  pub for_write : Bool
  pub dummy_read : Bool

-- A handler that is registered is told of bytes to read.
abbrev pub watch_after : ConnCall → Watch → Watch
watch_after register_handler p = record { for_read = true; for_write = false; dummy_read = false }
watch_after deregister_handler p = record {
  for_read = false;
  for_write = false;
  dummy_read = false;
}
watch_after close_conn p = p
watch_after enable_read_poll p = record p { for_read = true }
watch_after disable_read_poll p = record p { for_read = false; dummy_read = false }
watch_after enable_write_poll p = record p { for_write = true }
watch_after disable_write_poll p = record p { for_write = false }
watch_after raise_dummy_read_poll p = record p { dummy_read = true }
watch_after (has_read xs) p = p
watch_after (has_written xs) p = p

-- A call on the `DataTransferCounter`.
pub data CounterCall : Type 0 where
  copied_to_channel copied_to_connection : ℕ → CounterCall
  channel_connected channel_closed : CounterCall
  channel_was_rejected : (reason : Text) → CounterCall

-- What `Read` of the connection gives: a byte and those behind it; or none, to be tried again; or
-- none, since the peer has closed or the connection is lost.
pub data ReadResult : Type 0 where
  got : ℕ → List ℕ → ReadResult
  read_later read_failed : ReadResult

-- A null `dataForChannel` or `dataForNetConn` is an empty one. `has_channel`, `has_net_conn` and
-- `has_counter` tell whether the pointers are null. The channel's object stays when the pointer to it
-- is dropped, so it is a member here.
pub record Forwarder : Type 0 where
  pub channel : Channel
  pub has_channel : Bool
  pub has_net_conn : Bool
  pub has_counter : Bool
  pub allow_copy_from_channel : Bool
  pub allow_copy_from_net_conn : Bool
  pub fd_recv_enabled : Bool
  pub fd_send_enabled : Bool
  pub data_for_channel : List ℕ
  pub data_for_net_conn : List ℕ
  pub watch : Watch
  pub conn_calls : List ConnCall  -- oldest first, as the next two
  pub channel_effects : List Effect
  pub counter_calls : List CounterCall

abbrev pub on_conn : ConnCall → Forwarder → Forwarder
on_conn k w = record w { conn_calls = w.conn_calls ++ (k ∷ []); watch = watch_after k w.watch }

-- `if (counter) counter->…`
abbrev pub count : CounterCall → Forwarder → Forwarder
count k w = if w.has_counter then record w { counter_calls = w.counter_calls ++ (k ∷ []) } else w

-- A message was given to the session through `sendOrQueue`, by a channel that had its handler.
abbrev pub told : List Effect → Bool
told [] = false
told (send_or_queue m h ∷ es) = h || told es
told (register_channel ∷ es) = told es
told (deregister_channel ∷ es) = told es
told (setup_close_timeout ∷ es) = told es
told (send_msg m ∷ es) = told es
told (notify e ∷ es) = told es

-- A method of the channel has returned.
abbrev pub on_channel : Channel → List Effect → Forwarder → Forwarder
on_channel c es w = record w { channel = c; channel_effects = w.channel_effects ++ es }

-- `(RawData::tLen)availableBuffer < Len`: `tLen` is a signed 32-bit integer, so a window of 2^31 or
-- more is negative.
abbrev pub too_long : (available : ℕ) → (len : ℕ) → Bool
too_long available len = leb (2 ^ 31) available || ltb available len
