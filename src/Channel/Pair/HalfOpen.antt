-- ===== src/Channel/Pair/HalfOpen.antt =====
-- src/protocol/Channel.cc: `Close` in CONNECTING, whose message arrives in CONNECT_RESPONDING.
use libpinggy.Prelude.{ℕ, ◌≡◌, refl, true, List, [], ◌∷◌, ok, some, arith}
use libpinggy.Features.{SessionFeatures}
use libpinggy.Message.{SetupChannelResponseMsg, channel_close, setup_channel_response}
use libpinggy.Channel.State.{Channel, closing, connect_responding, connected, Effect}
use libpinggy.Channel.Handlers.{done, handle_new_channel_response, handle_channel_close}
use libpinggy.Channel.{accept}
use libpinggy.Channel.History.{perform, accepts}
use libpinggy.Channel.Pair.{
  Pair, sends, deliver, Next, at_b, a_gets, b_gets, Reach, here, then_next,
}

-- The answer that `Accept` sends.
abbrev answer_of : Channel → SetupChannelResponseMsg
answer_of c = record {
  channel_id = c.channel_id;
  accept = true;
  error = [];
  initial_window_size = c.local_window;
  max_data_size = c.local_max_packet;
}

close_ignored :
    (f : SessionFeatures) (id : ℕ) (c : Channel)
    → c.state ≡ connect_responding
    → deliver f (channel_close id) c ≡ ok (done c [])
unfolding deliver handle_channel_close
close_ignored f id c h = ground arith

answer_ignored :
    (f : SessionFeatures) (msg : SetupChannelResponseMsg) (c : Channel)
    → c.state ≡ closing
    → deliver f (setup_channel_response msg) c ≡ ok (done c [])
unfolding deliver handle_new_channel_response
answer_ignored f msg c h = ground arith

accept_sends :
    (f : SessionFeatures) (c : Channel)
    → c.state ≡ connect_responding
    → (es : List Effect) × (perform f c accepts
        ≡ some (record c { state = connected; allow_write = true }, es))
      × (sends es ≡ setup_channel_response (answer_of c) ∷ [])
unfolding perform accept
accept_sends f c h = ((accept f c).effects, ground arith, ground arith)

-- From every state in which `a` has closed before it was answered and its close message is the only
-- one on the way, while `b` has not answered, the two ends can reach one in which `a` still waits for
-- a close in return, `b` is connected, and nothing is on the way in either direction.
pub early_close_lost :
    (f : SessionFeatures) (id : ℕ) (s : Pair)
    → s.a.state ≡ closing
    → s.b.state ≡ connect_responding
    → s.ab ≡ channel_close id ∷ []
    → s.ba ≡ []
    → (t : Pair) × Reach f s t
      × (t.a.state ≡ closing)
      × (t.b.state ≡ connected)
      × (t.ab ≡ [])
      × (t.ba ≡ [])
early_close_lost f id s ha hb hab hba =
    let (es, e, sent) = accept_sends f s.b hb in
    let b' : Channel = record s.b { state = connected; allow_write = true } in
    let s1 : Pair = record { a = s.a; b = s.b; ab = []; ba = [] } in
    let s2 : Pair = record { a = s.a; b = b'; ab = []; ba = sends es } in
    let s3 : Pair = record { a = s.a; b = b'; ab = []; ba = [] } in
    let first : Next f s s1 =
      b_gets (channel_close id) [] (done s.b []) hab (close_ignored f id s.b hb) (ground arith) in
    let second : Next f s1 s2 = at_b accepts (b', es) refl e refl in
    let third : Next f s2 s3 =
      a_gets (setup_channel_response (answer_of s.b)) [] (done s.a []) sent
        (answer_ignored f (answer_of s.b) s.a ha) refl in
    (s3, then_next (then_next (then_next here first) second) third, ha, refl, refl, refl)
