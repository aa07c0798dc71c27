-- ===== src/Session/Life/Queue.antt =====
-- What flushing the queue of messages leaves alone in a session.
use libpinggy.Prelude.{
  ◌≡◌, Bool, true, false, not, List, [], ◌∷◌, if◌then◌else◌, arith, Outcome, ok, aborted, >>=-eq-ok,
  ◌&&◌,
}
use libpinggy.Message.{ProtoMsg}
use libpinggy.Session.State.{Session}
use libpinggy.Session.Sending.{flush_queue, offer, end_if, is_disconnect}
use libpinggy.Session.Keeps.{Keeps, Keeps-trans, offer_to-Keeps}

end_if-Keeps : (b : Bool) (s : Session) {t : Session} → end_if b s ≡ ok t → Keeps s t
unfolding end_if
end_if-Keeps false s e = ground arith
end_if-Keeps true s e = ground arith

-- After one message of the queue was offered.
after_offer :
    (success : Bool) (m : ProtoMsg) (q : List ProtoMsg) (u : Session) {t : Session}
    → (flush_queue q u ≡ ok t → Keeps u t)
    → elim success [ true ↦ flush_queue q u | false ↦ ok (record u { send_queue = m ∷ q }) ] ≡ ok t
    → Keeps u t
after_offer true m q u flushed e = flushed e
after_offer false m q u flushed e = ground arith

passed :
    (b : Bool) (o : Outcome Session) {t : Session}
    → (if not b then aborted else o) ≡ ok t
    → o ≡ ok t
passed true o e = e
passed false o e = absurd (ground arith)

pub flush_queue-Keeps :
    (q : List ProtoMsg) (s : Session) {t : Session} → flush_queue q s ≡ ok t → Keeps s t
unfolding flush_queue
flush_queue-Keeps [] s e = ground arith
flush_queue-Keeps (m ∷ q) s {t} e =
    let r : Bool × Session = offer m s in
    let (u, p, rest) =
      >>=-eq-ok (end_if (r.0 && is_disconnect m) r.1) _ {end = t} (passed s.has_transport _ e) in
    let offered : Keeps s r.1 = unfold offer in offer_to-Keeps m s.answers s in
    Keeps-trans offered (
      Keeps-trans (end_if-Keeps (r.0 && is_disconnect m) r.1 p)
        (after_offer r.0 m q u (flush_queue-Keeps q u {t = t}) rest))
