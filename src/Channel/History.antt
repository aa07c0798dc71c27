-- ===== src/Channel/History.antt =====
-- All that can be done to a channel, as one sequence of calls, from its construction on.
use libpinggy.Prelude.{
  ℕ, suc, Bool, true, false, ◌≡◌, refl, List, [], ◌∷◌, ◌++◌, length, Option, none, some, Outcome,
  ok, aborted, inl, inr, ◌∙◌, Option-cases, ℤ, arith, subst,
}
use libpinggy.Features.{SessionFeatures}
use libpinggy.Message.{Text, SetupChannelResponseMsg}
use libpinggy.Channel.State.{
  Channel, ChannelState, Effect, Step, register_channel, deregister_channel, setup_close_timeout,
  send_msg, send_or_queue, notify,
}
use libpinggy.Channel.Handlers.{
  handle_new_channel_response, handle_channel_data, handle_channel_window_adjust,
  handle_channel_close, handle_channel_error, close_timeout_triggered,
}
use libpinggy.Channel.Transfer.{send, recv}
use libpinggy.Channel.Lifecycle
use libpinggy.Channel.Lifecycle.{Moves, arrow, entry_after, registered_in}
use libpinggy.Channel.Window
use libpinggy.Channel.Window.{IsBalanced}
use libpinggy.Channel.{connect, accept, reject, close, register_event_handler}

-- A method of the public interface, a message that arrives, or the timeout.
pub data Call : Type 0 where
  registers_event_handler accepts closes times_out gets_close : Call
  connects : (new_id : ℕ) → Call
  rejects : (reason : Text) → Call
  sends : (payload : List ℕ) → Call
  receives : (len : ℤ) → Call
  gets_response : SetupChannelResponseMsg → Call
  gets_data : (payload : List ℕ) → Call
  gets_window_adjust : (additional_bytes : ℕ) → Call
  gets_error : (error_no : ℕ) (error : Text) → Call

abbrev Went : Type 0
Went = Option (Channel × List Effect)

abbrev went {ℓ} : {R : Type ℓ} → Step R → Went
went s = some (s.channel, s.effects)

abbrev went_on {ℓ} : {R : Type ℓ} → Outcome (Step R) → Went
went_on (ok s) = went s
went_on aborted = none

abbrev went_round {ℓ} : {R : Type ℓ} → Option (Step R) → Went
went_round (some s) = went s
went_round none = none

-- `none`: the call does not return, since the process is ended or `Send` loops for ever.
unfoldable pub perform : SessionFeatures → Channel → Call → Went
perform f c registers_event_handler = some (register_event_handler c, [])
perform f c accepts = went (accept f c)
perform f c closes = went (close f c)
perform f c times_out = went (close_timeout_triggered c)
perform f c gets_close = went (handle_channel_close c)
perform f c (connects new_id) = went (connect f new_id c)
perform f c (rejects reason) = went (reject f reason c)
perform f c (sends xs) = went_round (send (suc (length xs)) c xs)
perform f c (receives len) = went (recv c len)
perform f c (gets_response msg) = went_on (handle_new_channel_response f msg c)
perform f c (gets_data xs) = went_on (handle_channel_data f xs c)
perform f c (gets_window_adjust n) = went (handle_channel_window_adjust n c)
perform f c (gets_error n why) = went (handle_channel_error n why c)

abbrev continue_with : List Effect → Went → Went
continue_with es none = none
continue_with es (some (c, fs)) = some (c, es ++ fs)

-- The calls one after the other, with all that they do outside the channel.
unfoldable pub run : SessionFeatures → Channel → List Call → Went
run f c [] = some (c, [])
run f c (x ∷ xs) = elim (perform f c x) [ none ↦ none | some p ↦ continue_with p.1 (run f p.0 xs) ]

record Good (f : SessionFeatures) (c : Channel) (r : Channel × List Effect) : Type 0 where
  entry : entry_after (registered_in f c.state) r.1 ≡ some (registered_in f r.0.state)
  balanced : IsBalanced c → IsBalanced r.0
  along : arrow c.state r.0.state ≡ true

Good-went {ℓ} :
    {R : Type ℓ} (f : SessionFeatures) (c : Channel) (s : Step R) {r : Channel × List Effect}
    → Moves f c s
    → (IsBalanced c → IsBalanced s.channel)
    → went s ≡ some r
    → Good f c r
Good-went f c s m b e = ground (arith, m.entry, m.along, b)

-- A step whose accounts are quiet.
Good-Quiet {ℓ} :
    {R : Type ℓ} (f : SessionFeatures) (c : Channel) (s : Step R) {r : Channel × List Effect}
    → Moves f c s
    → Window.Quiet c s
    → went s ≡ some r
    → Good f c r
Good-Quiet f c s m q e = Good-went f c s m (λ b. (Window.Quiet-Accounts s q b).balanced) e

Good-handler :
    (f : SessionFeatures) (c : Channel) (o : Outcome (Step (Unit {0}))) {r : Channel × List Effect}
    → ((s : Step (Unit {0})) → o ≡ ok s → Moves f c s)
    → ((s : Step (Unit {0})) → o ≡ ok s → IsBalanced c → IsBalanced s.channel)
    → went_on o ≡ some r
    → Good f c r
Good-handler f c (ok s) m b e = Good-went f c s (m s refl) (b s refl) e
Good-handler f c aborted m b e = absurd (ground arith)

perform-Good :
    (f : SessionFeatures) (c : Channel) (x : Call) {r : Channel × List Effect}
    → perform f c x ≡ some r
    → Good f c r
unfolding perform
perform-Good f c registers_event_handler e = unfold register_event_handler in ground arith
perform-Good f c accepts e =
    Good-Quiet f c _ (Lifecycle.accept-Moves f c) (Window.accept-Quiet f c) e
perform-Good f c closes e = Good-Quiet f c _ (Lifecycle.close-Moves f c) (Window.close-Quiet f c) e
perform-Good f c times_out e =
    Good-Quiet f c _ (Lifecycle.close_timeout-Moves f c) (Window.close_timeout-Quiet c) e
perform-Good f c gets_close e =
    Good-Quiet f c _ (Lifecycle.channel_close-Moves f c) (Window.channel_close-Quiet c) e
perform-Good f c (connects new_id) e =
    Good-Quiet f c _ (Lifecycle.connect-Moves f new_id c) (Window.connect-Quiet f new_id c) e
perform-Good f c (rejects reason) e =
    Good-Quiet f c _ (Lifecycle.reject-Moves f reason c) (Window.reject-Quiet f reason c) e
perform-Good f c (sends xs) e = elim (Option-cases (send (suc (length xs)) c xs)) [
  | inl stuck ↦ absurd (ground arith)
  | inr (s, h) ↦
      Good-Quiet f c s (Lifecycle.send-Moves f (suc (length xs)) c xs h)
        (Window.send-Quiet (suc (length xs)) c xs h) (rw h at e)
]
perform-Good f c (receives len) e =
    Good-went f c _ (Lifecycle.recv-Moves f c len) (λ b. (Window.recv-Accounts c len b).balanced) e
perform-Good f c (gets_response msg) e =
    Good-handler f c _ (λ s h. Lifecycle.response-Moves f msg c h)
      (λ s h b. (Window.Quiet-Accounts s (Window.response-Quiet f msg c h) b).balanced) e
perform-Good f c (gets_data xs) e =
    Good-handler f c _ (λ s h. Lifecycle.channel_data-Moves f xs c h)
      (λ s h. Window.channel_data-IsBalanced f xs c h) e
perform-Good f c (gets_window_adjust n) e =
    Good-Quiet f c _ (Lifecycle.window_adjust-Moves f n c) (Window.window_adjust-Quiet n c) e
perform-Good f c (gets_error n why) e =
    Good-Quiet f c _ (Lifecycle.channel_error-Moves f n why c) (Window.channel_error-Quiet n why c)
      e

pub perform-IsBalanced :
    (f : SessionFeatures) (c : Channel) (x : Call) {r : Channel × List Effect}
    → perform f c x ≡ some r
    → IsBalanced c
    → IsBalanced r.0
perform-IsBalanced f c x e = (perform-Good f c x e).balanced

entry_after-append :
    (b : Bool) (es fs : List Effect) {b' : Bool}
    → entry_after b es ≡ some b'
    → entry_after b (es ++ fs) ≡ entry_after b' fs
entry_after-append b [] fs e = ground arith
entry_after-append b (register_channel ∷ es) fs {b'} e =
    ground (arith, entry_after-append true es fs {b' = b'})
entry_after-append b (deregister_channel ∷ es) fs {b'} e =
    ground (arith, entry_after-append false es fs {b' = b'})
entry_after-append b (setup_close_timeout ∷ es) fs e = entry_after-append b es fs e
entry_after-append b (send_msg m ∷ es) fs e = entry_after-append b es fs e
entry_after-append b (send_or_queue m h ∷ es) fs e = entry_after-append b es fs e
entry_after-append b (notify v ∷ es) fs e = entry_after-append b es fs e

-- A run that begins with a call is that call and the run of the others.
run_parts :
    (f : SessionFeatures) (c : Channel) (x : Call) (xs : List Call) {r : Channel × List Effect}
    → run f c (x ∷ xs) ≡ some r
    → (p : Channel × List Effect) × (q : Channel × List Effect) × (perform f c x ≡ some p)
      × (run f p.0 xs ≡ some q)
      × (r ≡ (q.0, p.1 ++ q.1))
unfolding run
run_parts f c x xs {r} e = elim (Option-cases (perform f c x)) [
  | inl stuck ↦ absurd (ground arith)
  | inr (p, hp) ↦ elim (Option-cases (run f p.0 xs)) [
    | inl stuck ↦ absurd (ground arith)
    | inr (q, hq) ↦ (p, q, hp, hq, ground arith)
  ]
]

-- Whatever is done to a channel, in any order, its registrations and removals with the session never
-- repeat each other, and afterwards its entry in the table is there exactly when its state says so,
-- if that was so before.
pub run-entry :
    (f : SessionFeatures) (c : Channel) (calls : List Call) {r : Channel × List Effect}
    → run f c calls ≡ some r
    → entry_after (registered_in f c.state) r.1 ≡ some (registered_in f r.0.state)
run-entry f c [] e = unfold run in ground arith
run-entry f c (x ∷ xs) {r} e =
    let (p, q, hp, hq, h) = run_parts f c x xs e in
    let first = (perform-Good f c x hp).entry in
    rw h (entry_after-append (registered_in f c.state) p.1 q.1 first ∙ run-entry f p.0 xs hq)

-- Whatever is done to a channel whose window accounts are balanced, in any order, leaves them
-- balanced: no byte of the window is lost or made up.
pub run-IsBalanced :
    (f : SessionFeatures) (c : Channel) (calls : List Call) {r : Channel × List Effect}
    → run f c calls ≡ some r
    → IsBalanced c
    → IsBalanced r.0
run-IsBalanced f c [] e b = unfold run in ground arith
run-IsBalanced f c (x ∷ xs) {r} e b =
    let (p, q, hp, hq, h) = run_parts f c x xs e in
    rw h (run-IsBalanced f p.0 xs hq ((perform-Good f c x hp).balanced b))

-- A walk in the state diagram, arrow by arrow.
pub data Walk : ChannelState → ChannelState → Type 0 where
  at_start : {s : ChannelState} → Walk s s
  along_arrow : {s t u : ChannelState} → arrow s t ≡ true → Walk t u → Walk s u

-- All calls together only ever move the channel along the arrows of the diagram.
pub run-Walk :
    (f : SessionFeatures) (c : Channel) (calls : List Call) {r : Channel × List Effect}
    → run f c calls ≡ some r
    → Walk c.state r.0.state
run-Walk f c [] {r} e =
    let same : c.state ≡ r.0.state = unfold run in ground arith in
    subst (λ s. Walk c.state s) same at_start
run-Walk f c (x ∷ xs) {r} e =
    let (p, q, hp, hq, h) = run_parts f c x xs e in
    rw h (along_arrow (perform-Good f c x hp).along (run-Walk f p.0 xs hq))
