-- ===== src/Session/Life/Sides.antt =====
-- src/protocol/Session.cc: the sides of a session, and how each call keeps to its own.
use libpinggy.Prelude.{
  ℕ, ◌+◌, ◌%◌, ◌^◌, ◌≡◌, refl, sym, ◌∙◌, Bool, true, false, not, List, [], ◌∷◌, if◌then◌else◌,
  arith, Outcome, Option, ◌⊎◌, subst, ok, aborted, ◌>>=◌, >>=-eq-ok, inl, inr, get_elem?, none,
  some, ap, ◌&&◌,
}
use libpinggy.Message.{
  Text, ProtoMsg, client_hello, server_hello, error_msg, authenticate, authentication_response,
  remote_forward_request, remote_forward_response, setup_channel, setup_channel_response,
  channel_data, channel_window_adjust, channel_close, channel_error, keep_alive,
  keep_alive_response, disconnect, warning_msg, usages, unknown_msg,
}
use libpinggy.Channel.State.{Channel, in_state, init as channel_init}
use libpinggy.Channel.{connect}
use libpinggy.Ids.{Search, found, full, unfinished, new_channel_id, first_channel_id}
use libpinggy.Ids.Fresh.{InCycle, Answer, fresh, none_left, new_channel_id-Answer}
use libpinggy.Session.State.{
  Session, SessionState, is_state, client_hello_sent, server_hello_sent,
  authentication_request_sent, authentication_request_recved, authenticated_as_client,
  authenticated_as_server,
}
use libpinggy.Session.Sending.{handle_connection_reset, handle_ready_to_send_buffer}
use libpinggy.Session.Table.{chan_id_exists, finish}
use libpinggy.Session.Dispatch.{handle_deserialized_msg, send_away, expect}
use libpinggy.Session.Api.{
  new_session, set_session_version, start, end, clean_up, authenticate_as_client,
  send_remote_forward_request, authentication_succeeded, authentication_refuse,
  accept_remote_forward_request, reject_remote_forward_request, send_keep_alive, create_channel,
  send_usages, send_error, set_enable_pinggy_value_mode, reset_incoming_activities, take_id,
  get_channel_new_id, connect_channel,
}
use libpinggy.Session.Keeps.{
  Keeps, Keeps-refl, Keeps-trans, cleanup_all-Keeps, reset-Keeps, send_away-Keeps, finish-Keeps,
}
use libpinggy.Session.Phases.{expected, handle_deserialized_msg-Follows, phase_after}
use libpinggy.Session.Life.{
  Call, starts, cleans_up, keeps_alive, resets_activities, ready_to_send, loses_connection,
  sets_version, usage, ends, reports_error, sets_value_mode, authenticates, requests_forward,
  admits, refuses, accepts_forward, rejects_forward, creates_channel, connects, gets, meets,
  perform, run, fits_side, IsConsistent,
}
use libpinggy.Session.Life.Queue.{flush_queue-Keeps}

module _ {b : Bool} where
  Keeps-IsConsistent : {s t : Session} → Keeps s t → IsConsistent b s → IsConsistent b t
  Keeps-IsConsistent k c = record {
    mode = k.mode ∙ c.mode;
    side = ap (λ p. fits_side p b) k.phase ∙ c.side;
    numbers = subst (InCycle (first_channel_id b)) (sym k.last_id) c.numbers;
  }

phase_fits :
    (m : ProtoMsg) (p : SessionState) (b : Bool)
    → expected m p ≡ true
    → fits_side p b ≡ true
    → fits_side (phase_after m p) b ≡ true
phase_fits (client_hello v) p b x f = f
phase_fits (server_hello v) p b x f = f
phase_fits (error_msg n w r) p b x f = f
phase_fits (authenticate u a v) p b x f = ground arith
phase_fits (authentication_response yes_ w ms i) p b x f = ground arith
phase_fits (remote_forward_request r po w q h m) p b x f = f
phase_fits (remote_forward_response r i o us fs w) p b x f = f
phase_fits (setup_channel msg) p b x f = f
phase_fits (setup_channel_response msg) p b x f = f
phase_fits (channel_data id xs) p b x f = f
phase_fits (channel_window_adjust id n) p b x f = f
phase_fits (channel_close id) p b x f = f
phase_fits (channel_error id n w) p b x f = f
phase_fits (keep_alive n) p b x f = f
phase_fits (keep_alive_response n) p b x f = f
phase_fits (disconnect w) p b x f = f
phase_fits (warning_msg n w) p b x f = f
phase_fits (usages u) p b x f = f
phase_fits (unknown_msg n) p b x f = f

search-InCycle :
    (exists : ℕ → Bool) (last : ℕ) (l : InCycle last last) (r : Search) {j : ℕ}
    → Answer exists last l r
    → r ≡ found j
    → InCycle last j
search-InCycle exists last l r (fresh i free other c) e = ground arith
search-InCycle exists last l r (none_left taken) e = absurd (ground arith)

module _ (b : Bool) (s t : Session) (c : IsConsistent b s) where
  sent_as : (m : ProtoMsg) (u : Session) → Keeps s u → send_away m u ≡ ok t → IsConsistent b t
  sent_as m u k e = Keeps-IsConsistent (Keeps-trans k (send_away-Keeps m u e)) c

  gets-IsConsistent : (m : ProtoMsg) → handle_deserialized_msg m s ≡ ok t → IsConsistent b t
  gets-IsConsistent m e =
      let f = handle_deserialized_msg-Follows m s t e in
      record {
        mode = f.mode ∙ c.mode;
        side = ap (λ p. fits_side p b) f.phase ∙ phase_fits m s.state b f.legal c.side;
        numbers = subst (InCycle (first_channel_id b)) (sym f.last_id) c.numbers;
      }

-- A number that is taken is of the same cycle.
take_id-IsConsistent :
    (b : Bool) (s : Session)
    → IsConsistent b s
    → IsConsistent b (get_channel_new_id s).0 × ((get_channel_new_id s).0.features ≡ s.features)
unfolding get_channel_new_id take_id
take_id-IsConsistent b s c = go (new_channel_id (chan_id_exists s) s.last_channel_id) refl
  where
    own : InCycle s.last_channel_id s.last_channel_id
    own = record { low = c.numbers.low; high = c.numbers.high; parity = refl }

    go :
        (r : Search)
        → new_channel_id (chan_id_exists s) s.last_channel_id ≡ r
        → IsConsistent b (take_id r s).0 × ((take_id r s).0.features ≡ s.features)
    go (found j) e =
        let in_cycle =
          search-InCycle (chan_id_exists s) s.last_channel_id own _ {j = j}
            (new_channel_id-Answer (chan_id_exists s) s.last_channel_id own) e in
        (
          record {
            mode = c.mode;
            side = c.side;
            numbers = record {
              low = in_cycle.low;
              high = in_cycle.high;
              parity = in_cycle.parity ∙ c.numbers.parity;
            };
          },
          refl,
        )
    go full e = (c, refl)
    go unfinished e = (c, refl)

either :
    {A : Type 0} (b : Bool) (o p : Outcome A) {t : A}
    → (if b then o else p) ≡ ok t
    → ((b ≡ true) × (o ≡ ok t)) ⊎ ((b ≡ false) × (p ≡ ok t))
either true o p e = inl (refl, e)
either false o p e = inr (refl, e)

abbrev paired : ℕ → Session → Outcome (Session × ℕ)
paired n v = ok (v, n)

guarded :
    (b : Bool) (o : Outcome Session) {t : Session} → expect b o ≡ ok t → (b ≡ true) × (o ≡ ok t)
guarded true o e = (refl, e)
guarded false o e = absurd (ground arith)

connects-IsConsistent :
    (b : Bool) (h : ℕ) (s t : Session)
    → IsConsistent b s
    → connect_channel h s ≡ ok t
    → IsConsistent b t
unfolding connect_channel
connects-IsConsistent b h s t c e = go (get_elem? s.objects h) e
  where
    go :
        (o : Option Channel)
        → elim o [
          | none ↦ aborted
          | some ch ↦
              if in_state ch.state (channel_init ∷ [])
              then finish h
                  (connect (get_channel_new_id s).0.features (get_channel_new_id s).1 ch)
                  (get_channel_new_id s).0
              else ok s
        ]
          ≡ ok t
        → IsConsistent b t
    go none e = absurd (ground arith)
    go (some ch) e = elim (either (in_state ch.state (channel_init ∷ [])) _ _ {t = t} e) [
      | inl (h', q) ↦
          Keeps-IsConsistent (finish-Keeps h _ (get_channel_new_id s).0 q)
            (take_id-IsConsistent b s c).0
      | inr (h', q) ↦ ground arith
    ]

module _ (b : Bool) (s t : Session) (c : IsConsistent b s) where
  sent_state :
      (m : ProtoMsg) (u : Session) (p : SessionState)
      → Keeps s u
      → fits_side p b ≡ true
      → (send_away m u >>= λ v. ok (record v { state = p })) ≡ ok t
      → IsConsistent b t
  sent_state m u p k f e =
      let (v, q, r) = >>=-eq-ok (send_away m u) _ {end = t} e in
      let d = Keeps-IsConsistent (Keeps-trans k (send_away-Keeps m u q)) c in
      ground (arith, d.mode, f, d.numbers)

  starts-IsConsistent : start s ≡ ok t → IsConsistent b t
  unfolding start
  starts-IsConsistent e = elim (either (not s.has_connection) aborted _ {t = t} e) [
    | inl (gone, q) ↦ absurd (ground arith)
    | inr (there, e') ↦ elim (either s.server_mode _ _ {t = t} e') [
      | inl (h, q) ↦
          sent_state _ (record s { has_handler = true; has_transport = true }) server_hello_sent
            (ground arith) (ground (arith, c.mode, h)) q
      | inr (h, q) ↦
          sent_state _ (record s { has_handler = true; has_transport = true }) client_hello_sent
            (ground arith) (ground (arith, c.mode, h)) q
    ]
  ]

  authenticates-IsConsistent :
      (user arguments : Text) (advanced : Bool)
      → authenticate_as_client user arguments advanced s ≡ ok t
      → IsConsistent b t
  unfolding authenticate_as_client
  authenticates-IsConsistent user arguments advanced e =
      let (h, q) = guarded (is_state s.state client_hello_sent && not s.server_mode) _ {t = t} e in
      sent_state _ s authentication_request_sent (Keeps-refl s) (ground (arith, c.mode, h)) q

  -- A message is sent, and the result of the call is passed over.
  sent_pair :
      (m : ProtoMsg) (u : Session) (n : ℕ) {r : Session × ℕ}
      → Keeps s u
      → (send_away m u >>= paired n) ≡ ok r
      → r.0 ≡ t
      → IsConsistent b t
  sent_pair m u n k p q =
      let (v, p', q') = >>=-eq-ok (send_away m u) (paired n) p in
      let d = Keeps-IsConsistent (Keeps-trans k (send_away-Keeps m u p')) c in
      let same : v ≡ t = ground arith in subst (IsConsistent b) same d

  admits-IsConsistent :
      (messages : List Text) (info : ℕ)
      → authentication_succeeded messages info s ≡ ok t
      → IsConsistent b t
  unfolding authentication_succeeded
  admits-IsConsistent messages info e =
      let (h, q) = guarded (is_state s.state authentication_request_recved) _ {t = t} e in
      let u : Session = record s { state = authenticated_as_server } in
      let d : IsConsistent b u = record {
        mode = c.mode;
        side = ground (arith, c.side, h);
        numbers = c.numbers;
      } in
      Keeps-IsConsistent (send_away-Keeps _ u q) d

  ends-IsConsistent : (reason : Text) → end reason s ≡ ok t → IsConsistent b t
  unfolding end
  ends-IsConsistent reason e = elim (either s.end_sent _ _ {t = t} e) [
    | inl (h, q) ↦ ground arith
    | inr (h, q) ↦
        let (v, p, r) = >>=-eq-ok (send_away (disconnect reason) s) _ {end = t} q in
        let d = Keeps-IsConsistent (send_away-Keeps _ s p) c in
        ground (arith, d.mode, d.side, d.numbers)
  ]

  requests-IsConsistent :
      (port : ℕ) (bind : Text) (to_port : ℕ) (to_host : Text) (mode : ℕ)
      → (send_remote_forward_request port bind to_port to_host mode s >>= λ r. ok r.0) ≡ ok t
      → IsConsistent b t
  unfolding send_remote_forward_request
  requests-IsConsistent port bind to_port to_host mode e =
      let (r, p, q) =
        >>=-eq-ok (send_remote_forward_request port bind to_port to_host mode s) (λ r. ok r.0)
          {end = t} e in
      elim (either (is_state s.state authenticated_as_client) _ _ {t = r} p) [
        | inl (h, p') ↦
            let req = (s.last_req_id + 1) % 2 ^ 16 in
            sent_pair _ (record s { last_req_id = req }) req (ground arith) p' (ground arith)
        | inr (h, p') ↦ absurd (ground arith)
      ]

  keep_alive-IsConsistent : (send_keep_alive s >>= λ r. ok r.0) ≡ ok t → IsConsistent b t
  unfolding send_keep_alive
  keep_alive-IsConsistent e =
      let (r, p, q) = >>=-eq-ok (send_keep_alive s) (λ r. ok r.0) {end = t} e in
      let tick = s.keep_alive_sent_tick in
      sent_pair _ (record s { keep_alive_sent_tick = (tick + 1) % 2 ^ 64 }) tick (ground arith) p
        (ground arith)

  perform-IsConsistent : (x : Call) → perform x s ≡ ok t → IsConsistent b t
  unfolding perform authentication_refuse accept_remote_forward_request
      reject_remote_forward_request
  perform-IsConsistent starts e = starts-IsConsistent e
  perform-IsConsistent cleans_up e =
      unfold clean_up in ground (arith, cleanup_all-Keeps s.channels s, c.mode, c.side, c.numbers)
  perform-IsConsistent (meets answers) e = ground arith
  perform-IsConsistent keeps_alive e = keep_alive-IsConsistent e
  perform-IsConsistent resets_activities e = unfold reset_incoming_activities in ground arith
  perform-IsConsistent ready_to_send e =
      unfold handle_ready_to_send_buffer in
      Keeps-IsConsistent (flush_queue-Keeps s.send_queue s e) c
  perform-IsConsistent loses_connection e =
      let same : handle_connection_reset s ≡ t = ground arith in
      subst (IsConsistent b) same (Keeps-IsConsistent (reset-Keeps s) c)
  perform-IsConsistent (sets_version v) e = unfold set_session_version in ground arith
  perform-IsConsistent (usage u) e = unfold send_usages in sent_as b s t c _ s (Keeps-refl s) e
  perform-IsConsistent (ends reason) e = ends-IsConsistent reason e
  perform-IsConsistent (reports_error what) e =
      unfold send_error in sent_as b s t c _ s (Keeps-refl s) e
  perform-IsConsistent (sets_value_mode v) e = unfold set_enable_pinggy_value_mode in ground arith
  perform-IsConsistent (authenticates user arguments v) e =
      authenticates-IsConsistent user arguments v e
  perform-IsConsistent (requests_forward port bind to_port to_host mode) e =
      requests-IsConsistent port bind to_port to_host mode e
  perform-IsConsistent (admits messages info error) e = admits-IsConsistent messages info e
  perform-IsConsistent (refuses messages info error) e =
      sent_as b s t c _ s (Keeps-refl s) (guarded _ _ e).1
  perform-IsConsistent (accepts_forward r f urls fs) e =
      sent_as b s t c _ s (Keeps-refl s) (guarded _ _ e).1
  perform-IsConsistent (rejects_forward r error) e =
      sent_as b s t c _ s (Keeps-refl s) (guarded _ _ e).1
  perform-IsConsistent (creates_channel p h sp sh ty f) e = unfold create_channel in ground arith
  perform-IsConsistent (connects h) e = connects-IsConsistent b h s t c e
  perform-IsConsistent (gets m) e = gets-IsConsistent b s t c m e

new_session-IsConsistent :
    (polls as_server : Bool) → IsConsistent as_server (new_session polls as_server)
unfolding new_session first_channel_id
new_session-IsConsistent polls as_server = ground arith

run-IsConsistent :
    (b : Bool) (xs : List Call) (s t : Session)
    → IsConsistent b s
    → run xs s ≡ ok t
    → IsConsistent b t
unfolding run
run-IsConsistent b [] s t c e = subst (IsConsistent b) (ground arith) c
run-IsConsistent b (x ∷ xs) s t c e =
    let (u, p, q) = >>=-eq-ok (perform x s) (run xs) {end = t} e in
    run-IsConsistent b xs u t (perform-IsConsistent b s u c x p) q

-- Whatever is called on a session, whatever arrives, and whether the transport takes a message, refuses it or finds the
-- connection lost at it, in any order, where event handlers do not call back: while the process goes on, the
-- session keeps its side, is only ever in a phase of that side, and its last channel number is one
-- that this side gives.
pub life-IsConsistent :
    (polls as_server : Bool) (xs : List Call) (t : Session)
    → run xs (new_session polls as_server) ≡ ok t
    → IsConsistent as_server t
life-IsConsistent polls as_server xs t e =
    run-IsConsistent as_server xs (new_session polls as_server) t
      (new_session-IsConsistent polls as_server) e
