-- ===== src/Channel/Tests.antt =====
-- Runs of a channel between two threads, and the theorems at those runs.
use cmpsc_473_operating_syst.Common.{
  Bool, ℕ, ◌≡◌, refl, ◌≢◌, ◌≤◌, ◌++◌, ◌==◌, if◌then◌else◌, inl, none, some, true, false, List, [],
  ◌∷◌, arith, length,
}
use cmpsc_473_operating_syst.Buffer.{buffer_create, buffer_add, buffer_remove}
use cmpsc_473_operating_syst.Buffer.Refine.{Represents}
use cmpsc_473_operating_syst.Channel.{
  Status, success, closed_error, Cond, Channel, Point, send, receive, receive_again, not_empty,
  notify_select_senders, notify_select_receivers, signals, broadcasts, close, returns, Wake, State,
  answer, channel_create,
}
use cmpsc_473_operating_syst.Channel.Operations.{
  channel_send, channel_receive, channel_close, channel_destroy, send_buffered, send_added,
  receive_buffered, receive_removed, run_section,
}
use cmpsc_473_operating_syst.Channel.System.{
  System, ready, waiting, call, enter, wake, Reach, here, later, initial, ran, moved, apply, update,
  waking,
}
use cmpsc_473_operating_syst.Channel.Fifo.{channel_in_order}
use cmpsc_473_operating_syst.Channel.Close.{closed_for_good}
use cmpsc_473_operating_syst.Channel.Waits.{channel_close_releases}
use cmpsc_473_operating_syst.Channel.Threads.{to_wake, closing}

abbrev one_place : Channel ℕ
one_place = record {
  buffer = buffer_create (0 ∷ []) 1;
  closed_flag = false;
  send_selectors = [];
  recv_selectors = [];
  is_unbuffered = false;
  active_unbuf_op = none;
  unbuf_stage = 0;
  unbuf_data = 0;
  waiting_senders = 0;
  waiting_receivers = 0;
}

abbrev start : State ℕ
start = record { chan = one_place; vars = λ a. 0 }

abbrev called : System ℕ → ℕ → ℕ → Point → System ℕ
called s i x point = record s {
  threads = update s.threads i (ready point);
  state = record s.state { vars = λ a. if a == i then x else s.state.vars a };
}

-- Thread 0 sends 5.
abbrev sending : System ℕ
sending = called (initial start) 0 5 send

abbrev has_sent : System ℕ
has_sent = ran sending 0 0 send

Reach-has_sent : Reach (initial start) has_sent
unfolding run_section channel_send send_buffered send_added buffer_add buffer_create
Reach-has_sent =
    later (later here (call 0 5 send refl (inl refl) refl)) (enter 0 0 send refl tt refl)

has_sent-sent : has_sent.sent ≡ 5 ∷ []
unfolding run_section channel_send send_buffered send_added buffer_add buffer_create
has_sent-sent = refl

channel_create-one_place : channel_create true (0 ∷ []) 1 ≡ some one_place
unfolding channel_create buffer_create
channel_create-one_place = refl

channel_in_order_example :
    (q : List ℕ) × (has_sent.sent ≡ has_sent.received ++ q)
    × Represents has_sent.state.chan.buffer q
    × (length q ≤ 1)
channel_in_order_example =
    channel_in_order (0 ∷ []) 1 (omega arith) (omega arith) (omega arith) channel_create-one_place
      Reach-has_sent

-- Thread 0 waits for a value, and thread 1 is about to close the channel.
abbrev receiving : System ℕ
receiving = called (initial start) 0 0 receive

abbrev starved : System ℕ
starved = ran receiving 0 0 receive

abbrev closes : System ℕ
closes = called starved 1 0 close

starved-waits : starved.threads 0 ≡ waiting not_empty receive_again
unfolding run_section channel_receive receive_buffered receive_removed buffer_remove buffer_create
starved-waits = refl

Reach-closes : Reach (initial start) closes
unfolding run_section channel_receive receive_buffered receive_removed buffer_remove buffer_create
Reach-closes =
    later
      (later (later here (call 0 0 receive refl (inl refl) refl)) (enter 0 0 receive refl tt refl))
      (call 1 0 close refl (inl refl) refl)

abbrev closed : System ℕ
closed = ran closes 1 1 close

-- Thread 1 does its wakes.
abbrev woken : List Wake → System ℕ → System ℕ
woken [] s = s
woken (w ∷ ws) s = woken ws (moved s (apply 1 w (update s.threads 1 (waking ws success))))

abbrev without_signals : List Wake → Bool
without_signals [] = true
without_signals (signals c ∷ ws) = false
without_signals (w ∷ ws) = without_signals ws

Reach-woken :
    (ws : List Wake) (s u : System ℕ)
    → without_signals ws ≡ true
    → u.threads 1 ≡ waking ws success
    → Reach s u
    → Reach s (woken ws u)
Reach-woken [] s u e at r = r
Reach-woken (signals c ∷ ws) s u e at r = absurd (ground (arith, e))
Reach-woken (broadcasts c ∷ ws) s u e at r =
    Reach-woken ws s _ e refl (later r (wake 1 1 (broadcasts c) ws success at tt refl))
Reach-woken (notify_select_senders ∷ ws) s u e at r =
    Reach-woken ws s _ e refl (later r (wake 1 1 notify_select_senders ws success at tt refl))
Reach-woken (notify_select_receivers ∷ ws) s u e at r =
    Reach-woken ws s _ e refl (later r (wake 1 1 notify_select_receivers ws success at tt refl))

abbrev released : System ℕ
released = woken closing closed

released-waked :
    (released.threads 0 ≡ ready receive_again) × (released.threads 1 ≡ waking [] success)
unfolding run_section channel_close channel_receive receive_buffered receive_removed buffer_remove
    buffer_create
released-waked = (refl, refl)

Reach-released : Reach closed released
unfolding run_section channel_close channel_receive receive_buffered receive_removed buffer_remove
    buffer_create
Reach-released = Reach-woken closing closed closed refl refl here

closes-ready : (closes.threads 1 ≡ ready close) × (closes.state.chan.closed_flag ≡ false)
unfolding run_section channel_receive receive_buffered receive_removed buffer_remove buffer_create
closes-ready = (refl, refl)

released-woken : to_wake (released.threads 1) ≡ []
unfolding run_section channel_close channel_receive receive_buffered receive_removed buffer_remove
    buffer_create
released-woken = refl

channel_close_releases_example :
    ((j : ℕ) (c : Cond) (p : Point) → released.threads j ≢ waiting c p)
    × ((j : ℕ) (p : Point)
        → released.threads j ≡ ready p
        → (ws : List Wake) × (status : Status) × ((run_section p j released.state).next
            ≡ returns ws status))
channel_close_releases_example =
    channel_close_releases 1 1 refl Reach-closes closes-ready.0 closes-ready.1 Reach-released
      released-woken

closed-closed : closed.state.chan.closed_flag ≡ true
unfolding run_section channel_close channel_receive receive_buffered receive_removed buffer_remove
    buffer_create
closed-closed = refl

closed_for_good_example :
    (run_section send 0 released.state ≡ answer released.state closed_error)
    × (channel_destroy released.state.chan ≡ success)
closed_for_good_example = closed_for_good send 0 closed-closed Reach-released refl
