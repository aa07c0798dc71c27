-- ===== src/Channel/Pair/Safety.antt =====
-- What the two ends of a pair can do to each other's window, in all the states that they reach.
use libpinggy.Prelude.{
  ℕ, ◌+◌, ◌-◌, ◌≤◌, ◌≡◌, ◌≢◌, ap, subst, ◌∙◌, true, false, List, [], ◌∷◌, ◌++◌, ok, aborted, arith,
  some,
}
use libpinggy.Features.{SessionFeatures}
use libpinggy.Message.{Text, ProtoMsg}
use libpinggy.Channel.State.{
  Channel, connecting, connect_responding, Effect, Step, max_packet, channel_window_size,
}
use libpinggy.Channel.Window.{IsBalanced}
use libpinggy.Channel.History
use libpinggy.Channel.History.{Call, perform}
use libpinggy.Channel.Handlers.{initiate_incoming_channel}
use libpinggy.Channel.{new_channel, set_channel_info, setup_msg, connect}
use libpinggy.Channel.Pair.{
  Pair, sends, deliver, arrival, is_local, start, Next, at_a, at_b, a_gets, b_gets, Reach, here,
  then_next,
}
use libpinggy.Channel.Pair.Local.{data_bytes, credit_bytes, Grants, head_start, perform-Spends}
use libpinggy.Channel.Pair.Arrivals.{deliver-Arrives, deliver-IsBalanced, deliver-ne-aborted}

-- The sum of what `x` may still send, what is on the way to `y`, and what `y` has given back but `x`
-- does not know of, is at most what `y` can take.
abbrev Fits : Channel → Channel → List ProtoMsg → List ProtoMsg → Type 0
Fits x y xy yx =
    x.remote_window + head_start x.state + data_bytes xy + credit_bytes yx ≤ y.local_window

-- Before `b` answers, nothing has been sent back, and `a` has used its head start at most.
abbrev IsEarly : Pair → Type 0
IsEarly s =
    s.b.state ≡ connect_responding
    → (s.ba ≡ [])
      × (s.b.allow_write ≡ false)
      × (s.a.remote_window + data_bytes s.ab + (channel_window_size - max_packet)
          ≤ s.b.local_window)

record IsSafe (s : Pair) : Type 0 where
  a_balanced : IsBalanced s.a
  b_balanced : IsBalanced s.b
  a_side : s.a.state ≢ connect_responding
  forth : Fits s.a s.b s.ab s.ba
  back : Fits s.b s.a s.ba s.ab
  early : IsEarly s
  ab_grants : Grants s.ab
  ba_grants : Grants s.ba

data_bytes-append : (ms ns : List ProtoMsg) → data_bytes (ms ++ ns) ≡ data_bytes ms + data_bytes ns
data_bytes-append [] ns = omega arith
data_bytes-append (m ∷ ms) ns = omega (arith, data_bytes-append ms ns)

credit_bytes-append :
    (ms ns : List ProtoMsg) → credit_bytes (ms ++ ns) ≡ credit_bytes ms + credit_bytes ns
credit_bytes-append [] ns = omega arith
credit_bytes-append (m ∷ ms) ns = omega (arith, credit_bytes-append ms ns)

Grants-append : (ms ns : List ProtoMsg) → Grants ms → Grants ns → Grants (ms ++ ns)
Grants-append [] ns g h = h
Grants-append (m ∷ ms) ns g h = (g.0, Grants-append ms ns g.1 h)

-- An end that waits for its answer has no more than the head start.
small_start :
    (x y : Channel) (xy yx : List ProtoMsg)
    → IsBalanced y
    → Fits x y xy yx
    → x.state ≡ connecting
    → x.remote_window ≤ max_packet
small_start x y xy yx b fits h = ground (arith, b.total)

module _ (f : SessionFeatures) (s : Pair) (v : IsSafe s) where
  module _ (x : Call) (r : Channel × List Effect) (local : is_local x ≡ true) where
    at_a-IsSafe : perform f s.a x ≡ some r → IsSafe (record s { a = r.0; ab = s.ab ++ sends r.1 })
    at_a-IsSafe e =
        let p = perform-Spends f s.a x {r = r} v.a_balanced local e in
        let more = data_bytes-append s.ab (sends r.1) in
        record {
          a_balanced = History.perform-IsBalanced f s.a x e v.a_balanced;
          b_balanced = v.b_balanced;
          a_side = λ w. v.a_side (p.stays w);
          forth = omega (arith, p.spent, p.head, v.forth, more);
          back = omega (arith, p.given, v.back, credit_bytes-append s.ab (sends r.1));
          early = λ w.
              let (none_back, shut, room) = v.early w in
              (none_back, shut, omega (arith, p.spent, room, more));
          ab_grants =
              Grants-append s.ab (sends r.1) v.ab_grants
                (p.grants v.a_balanced (λ w. absurd (v.a_side w)));
          ba_grants = v.ba_grants;
        }

    at_b-IsSafe : perform f s.b x ≡ some r → IsSafe (record s { b = r.0; ba = s.ba ++ sends r.1 })
    at_b-IsSafe e =
        let p = perform-Spends f s.b x {r = r} v.b_balanced local e in
        record {
          a_balanced = v.a_balanced;
          b_balanced = History.perform-IsBalanced f s.b x e v.b_balanced;
          a_side = v.a_side;
          forth = omega (arith, p.given, v.forth, credit_bytes-append s.ba (sends r.1));
          back = omega (arith, p.spent, p.head, v.back, data_bytes-append s.ba (sends r.1));
          early = λ w.
              let (none_back, shut, room) = v.early (p.stays w) in
              let (none_sent, still_shut) = p.quiet w shut in
              (rw (none_back, none_sent), still_shut, omega (arith, p.given, room));
          ab_grants = v.ab_grants;
          ba_grants =
              Grants-append s.ba (sends r.1) v.ba_grants
                (p.grants v.b_balanced (λ w. omega (arith, (v.early w).2)));
        }

  module _ (m : ProtoMsg) (rest : List ProtoMsg) (r : Step (Unit {0})) where
    a_gets-IsSafe :
        s.ba ≡ m ∷ rest
        → deliver f m s.a ≡ ok r
        → IsSafe (record s { a = r.channel; ba = rest; ab = s.ab ++ sends r.effects })
    a_gets-IsSafe q e =
        let (grant, grants) = subst Grants q v.ba_grants in
        let own =
          λ (h : s.a.state ≡ connecting). small_start s.a s.b s.ab s.ba v.b_balanced v.forth h in
        let p = deliver-Arrives f m s.a {s = r} grant own e in
        let bytes = ap data_bytes q in
        let credit = ap credit_bytes q in
        let more = data_bytes-append s.ab (sends r.effects) in
        record {
          a_balanced = deliver-IsBalanced f m s.a e v.a_balanced;
          b_balanced = v.b_balanced;
          a_side = λ w. v.a_side (p.quiet w).0;
          forth = omega (arith, p.gained, p.no_data, v.forth, bytes, credit, more);
          back = omega (
            arith,
            p.lost,
            p.no_credit,
            v.back,
            bytes,
            credit_bytes-append s.ab (sends r.effects),
          );
          early = λ w. cc (q, (v.early w).0);
          ab_grants = Grants-append s.ab (sends r.effects) v.ab_grants p.grants;
          ba_grants = grants;
        }

    b_gets-IsSafe :
        s.ab ≡ m ∷ rest
        → deliver f m s.b ≡ ok r
        → IsSafe (record s { b = r.channel; ab = rest; ba = s.ba ++ sends r.effects })
    b_gets-IsSafe q e =
        let (grant, grants) = subst Grants q v.ab_grants in
        let own =
          λ (h : s.b.state ≡ connecting). small_start s.b s.a s.ba s.ab v.a_balanced v.back h in
        let p = deliver-Arrives f m s.b {s = r} grant own e in
        let bytes = ap data_bytes q in
        let credit = ap credit_bytes q in
        let more = data_bytes-append s.ba (sends r.effects) in
        record {
          a_balanced = v.a_balanced;
          b_balanced = deliver-IsBalanced f m s.b e v.b_balanced;
          a_side = v.a_side;
          forth = omega (
            arith,
            p.lost,
            p.no_credit,
            v.forth,
            bytes,
            credit_bytes-append s.ba (sends r.effects),
          );
          back = omega (arith, p.gained, p.no_data, v.back, bytes, credit, more);
          early = λ w.
              let (was_early, none_sent, same) = p.quiet w in
              let (none_back, shut, room) = v.early was_early in
              (rw (none_back, none_sent), same ∙ shut, omega (arith, p.lost, room, bytes));
          ab_grants = grants;
          ba_grants = Grants-append s.ba (sends r.effects) v.ba_grants p.grants;
        }

Next-IsSafe : {f : SessionFeatures} {s t : Pair} → Next f s t → IsSafe s → IsSafe t
Next-IsSafe {f} {s} (at_a x r h e q) v = rw q (at_a-IsSafe f s v x r h e)
Next-IsSafe {f} {s} (at_b x r h e q) v = rw q (at_b-IsSafe f s v x r h e)
Next-IsSafe {f} {s} (a_gets m rest r h e q) v = rw q (a_gets-IsSafe f s v m rest r h e)
Next-IsSafe {f} {s} (b_gets m rest r h e q) v = rw q (b_gets-IsSafe f s v m rest r h e)

Reach-IsSafe : {f : SessionFeatures} {s t : Pair} → IsSafe s → Reach f s t → IsSafe t
Reach-IsSafe v here = v
Reach-IsSafe v (then_next r n) = Next-IsSafe n (Reach-IsSafe v r)

start-IsSafe :
    (f : SessionFeatures) (id dest_port : ℕ) (dest_host : Text) (src_port : ℕ) (src_host : Text)
    (chan_type forwarding_id : ℕ) (s : Pair)
    → start f id dest_port dest_host src_port src_host chan_type forwarding_id ≡ ok s
    → IsSafe s
unfolding start connect initiate_incoming_channel new_channel set_channel_info setup_msg
start-IsSafe f id dest_port dest_host src_port src_host chan_type forwarding_id s e = ground arith

arrival-ne-aborted :
    (f : SessionFeatures) (ms : List ProtoMsg) (c : Channel)
    → Grants ms
    → data_bytes ms ≤ c.local_window
    → arrival f ms c ≢ aborted
arrival-ne-aborted f [] c g h = λ e. absurd (ground arith)
arrival-ne-aborted f (m ∷ rest) c g h = deliver-ne-aborted f m c g.0 (omega (arith, h))

-- In every state that two ends with the same features can reach from the opening of a channel, by calls of the two programs,
-- timeouts and arrivals in any order, the arrival of the next message at either end does not end the
-- process, and all window bytes are accounted for at both ends.
pub Reach-safe :
    (f : SessionFeatures) (id dest_port : ℕ) (dest_host : Text) (src_port : ℕ) (src_host : Text)
    (chan_type forwarding_id : ℕ) (s t : Pair)
    → start f id dest_port dest_host src_port src_host chan_type forwarding_id ≡ ok s
    → Reach f s t
    → (arrival f t.ba t.a ≢ aborted)
      × (arrival f t.ab t.b ≢ aborted)
      × IsBalanced t.a
      × IsBalanced t.b
Reach-safe f id dest_port dest_host src_port src_host chan_type forwarding_id s t e r =
    let v : IsSafe t =
      Reach-IsSafe
        (start-IsSafe f id dest_port dest_host src_port src_host chan_type forwarding_id s e) r in
    (
      arrival-ne-aborted f t.ba t.a v.ba_grants (omega (arith, v.back)),
      arrival-ne-aborted f t.ab t.b v.ab_grants (omega (arith, v.forth)),
      v.a_balanced,
      v.b_balanced,
    )
