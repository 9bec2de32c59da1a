-- ===== src/Channel/Close.antt =====
-- channel_close: what operations do at a closed channel, and who may still wait at it.
use cmpsc_473_operating_syst.Common.{ℕ, ◌≡◌, refl, ◌∙◌, Option, none, some, true, arith}
use cmpsc_473_operating_syst.Buffer
use cmpsc_473_operating_syst.Buffer.{
  Buffer, buffer_success, buffer_error, buffer_add, buffer_remove,
}
use cmpsc_473_operating_syst.Channel.{
  closed_error, success, Op, sending, receiving, Point, send, receive, try_send, try_receive, close,
  send_again, receive_again, try_send_again, try_receive_again, sync_done, sync_again, State,
  answer, exchange, unbuffered_sync, first_party, line_up, second_party, end_rendezvous, leave_line,
}
use cmpsc_473_operating_syst.Channel.Operations.{
  send_added, send_buffered, receive_removed, receive_buffered, channel_send, channel_receive,
  try_send_unbuffered, channel_non_blocking_send, try_receive_unbuffered,
  channel_non_blocking_receive, channel_close, channel_destroy, run_section,
}
use cmpsc_473_operating_syst.Channel.System.{
  System, Step, call, lock_fails, enter, wake, finish, spurious, Reach, here, later, is_start,
}

module _ {A : Type 0} where
  -- The two marks of a channel that operations only read, but for `channel_close`.
  abbrev pub Closed : State A → Type 0
  Closed s = s.chan.closed_flag ≡ true

  abbrev pub SameFlags : State A → State A → Type 0
  SameFlags s u =
      (u.chan.closed_flag ≡ s.chan.closed_flag) × (u.chan.is_unbuffered ≡ s.chan.is_unbuffered)

  unbuffered_sync-SameFlags :
      (op : Op) (p : ℕ) (s : State A) → SameFlags s (unbuffered_sync op p s).state
  unfolding unbuffered_sync first_party line_up second_party exchange
  unbuffered_sync-SameFlags sending p s = ground arith
  unbuffered_sync-SameFlags receiving p s = ground arith

  send_added-SameFlags :
      (s : State A) (r : Buffer.Status × Buffer A) → SameFlags s (send_added s r).state
  unfolding send_added
  send_added-SameFlags s (buffer_success, b) = (refl, refl)
  send_added-SameFlags s (buffer_error, b) = ground arith

  receive_removed-SameFlags :
      (s : State A) (i : ℕ) (r : Buffer.Status × Option A × Buffer A)
      → SameFlags s (receive_removed i s r).state
  unfolding receive_removed
  receive_removed-SameFlags s i (buffer_success, none, b) = (refl, refl)
  receive_removed-SameFlags s i (buffer_success, some x, b) = (refl, refl)
  receive_removed-SameFlags s i (buffer_error, out, b) = ground arith

  -- At a closed channel an operation that starts returns CLOSED_ERROR.
  start-Closed :
      (point : Point) (i : ℕ) (s : State A)
      → is_start point ≡ true
      → Closed s
      → run_section point i s ≡ answer s closed_error
  unfolding run_section channel_send channel_receive channel_non_blocking_send
      channel_non_blocking_receive channel_close
  start-Closed send i s e c = rw c refl
  start-Closed receive i s e c = rw c refl
  start-Closed try_send i s e c = rw c refl
  start-Closed try_receive i s e c = rw c refl
  start-Closed close i s e c = rw c refl
  start-Closed point i s e c = absurd (ground (arith, e))

  try_send_unbuffered-SameFlags :
      (i : ℕ) (s : State A) → SameFlags s (try_send_unbuffered i s).state
  unfolding try_send_unbuffered
  try_send_unbuffered-SameFlags i s = ground (arith, unbuffered_sync-SameFlags sending i s)

  try_receive_unbuffered-SameFlags :
      (i : ℕ) (s : State A) → SameFlags s (try_receive_unbuffered i s).state
  unfolding try_receive_unbuffered
  try_receive_unbuffered-SameFlags i s = ground (arith, unbuffered_sync-SameFlags receiving i s)

  -- At a closed channel no section changes either mark.
  pub run_section-SameFlags :
      (point : Point) (i : ℕ) (s : State A) → Closed s → SameFlags s (run_section point i s).state
  unfolding run_section send_buffered receive_buffered end_rendezvous leave_line
  run_section-SameFlags send i s c = rw (start-Closed send i s refl c) (refl, refl)
  run_section-SameFlags receive i s c = rw (start-Closed receive i s refl c) (refl, refl)
  run_section-SameFlags try_send i s c = rw (start-Closed try_send i s refl c) (refl, refl)
  run_section-SameFlags try_receive i s c = rw (start-Closed try_receive i s refl c) (refl, refl)
  run_section-SameFlags close i s c = rw (start-Closed close i s refl c) (refl, refl)
  run_section-SameFlags send_again i s c = send_added-SameFlags s _
  run_section-SameFlags receive_again i s c = receive_removed-SameFlags s i _
  run_section-SameFlags try_send_again i s c = try_send_unbuffered-SameFlags i s
  run_section-SameFlags try_receive_again i s c = try_receive_unbuffered-SameFlags i s
  run_section-SameFlags sync_done i s c = (refl, refl)
  run_section-SameFlags (sync_again sending) i s c =
      unbuffered_sync-SameFlags sending i (leave_line sending s)
  run_section-SameFlags (sync_again receiving) i s c =
      unbuffered_sync-SameFlags receiving i (leave_line receiving s)

  pub Step-Closed : {s u : System A} → Step s u → Closed s.state → Closed u.state
  Step-Closed (call i x point start free eq) c = rw eq c
  Step-Closed (lock_fails i point start at eq) c = rw eq c
  Step-Closed {s} (enter i k point at chosen eq) c =
      rw eq ((run_section-SameFlags point i s.state c).0 ∙ c)
  Step-Closed (wake i k w ws status at chosen eq) c = rw eq c
  Step-Closed (finish i status at eq) c = rw eq c
  Step-Closed (spurious i cond point at eq) c = rw eq c

  Reach-Closed : {s u : System A} → Reach s u → Closed s.state → Closed u.state
  Reach-Closed here c = c
  Reach-Closed (later r step) c = Step-Closed step (Reach-Closed r c)

  -- Once a channel is closed it stays so: whatever threads do from then on, an operation that takes
  -- the lock returns CLOSED_ERROR at once, changes nothing and wakes nobody, a second
  -- `channel_close` too, and `channel_destroy` may free the channel.
  pub closed_for_good :
      {s u : System A} (point : Point) (i : ℕ)
      → s.state.chan.closed_flag ≡ true
      → Reach s u
      → is_start point ≡ true
      → (run_section point i u.state ≡ answer u.state closed_error)
        × (channel_destroy u.state.chan ≡ success)
  unfolding channel_destroy
  closed_for_good {s} {u} point i c reach start =
      let c' = Reach-Closed reach c in (start-Closed point i u.state start c', rw c' refl)
