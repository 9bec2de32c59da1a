-- ===== src/Channel/Operations.antt =====
-- The operations of channel.c on one channel, section by section.
use cmpsc_473_operating_syst.Common.{
  ℕ, true, ◌&&◌, ◌||◌, Option, none, some, [], ◌∷◌, ltb, ◌==◌, if◌then◌else◌, length,
}
use cmpsc_473_operating_syst.Buffer.{
  Buffer, buffer_success, buffer_error, buffer_add, buffer_remove,
}
use cmpsc_473_operating_syst.Buffer
use cmpsc_473_operating_syst.Channel.{
  Status, channel_empty, channel_full, success, closed_error, destroy_error, sending, receiving,
  not_full, not_empty, rendezvous_wait, rendezvous_complete, signals, broadcasts,
  notify_select_senders, notify_select_receivers, Channel, Point, send, receive, try_send,
  try_receive, close, send_again, receive_again, try_send_again, try_receive_again, sync_done,
  sync_again, returns, waits, State, Section, is_op, section, answer, with_chan, assign,
  unbuffered_sync, end_rendezvous, leave_line,
}

module _ {A : Type 0} where
  -- After `buffer_add`, in a send that blocks.
  unfoldable pub send_added : State A → Buffer.Status × Buffer A → Section A
  send_added s (buffer_success, b) =
      section (with_chan s (record s.chan { buffer = b })) []
        (returns (notify_select_receivers ∷ signals not_empty ∷ []) success)
  send_added s (buffer_error, b) =
      if s.chan.closed_flag then answer s closed_error else section s [] (waits not_full send_again)

  -- The `while` of `channel_send`.
  unfoldable pub send_buffered : ℕ → State A → Section A
  unfolding buffer_add send_added
  send_buffered p s = send_added s (buffer_add s.chan.buffer (s.vars p))

  -- `*data` is written where `buffer_remove` has a value.
  abbrev pub store : State A → ℕ → Option A → State A
  store s p none = s
  store s p (some x) = assign s p x

  unfoldable pub receive_removed : ℕ → State A → Buffer.Status × Option A × Buffer A → Section A
  receive_removed p s (buffer_success, out, b) =
      let s' = store s p out in
      section (with_chan s' (record s'.chan { buffer = b })) []
        (returns (notify_select_senders ∷ signals not_full ∷ []) success)
  receive_removed p s (buffer_error, out, b) =
      if s.chan.closed_flag
      then answer s closed_error
      else section s [] (waits not_empty receive_again)

  unfoldable pub receive_buffered : ℕ → State A → Section A
  unfolding buffer_remove receive_removed
  receive_buffered p s = receive_removed p s (buffer_remove s.chan.buffer)

  unfoldable pub channel_send : ℕ → State A → Section A
  unfolding unbuffered_sync send_buffered
  channel_send p s =
      if s.chan.closed_flag
      then answer s closed_error
      else if s.chan.is_unbuffered
      then unbuffered_sync sending p s
      else send_buffered p s

  unfoldable pub channel_receive : ℕ → State A → Section A
  unfolding unbuffered_sync receive_buffered
  channel_receive p s =
      if s.chan.closed_flag
      then answer s closed_error
      else if s.chan.is_unbuffered
      then unbuffered_sync receiving p s
      else receive_buffered p s

  -- The unbuffered part of `channel_non_blocking_send`, from its `while` on.
  unfoldable pub try_send_unbuffered : ℕ → State A → Section A
  unfolding unbuffered_sync
  try_send_unbuffered p s =
      let c = s.chan in
      if ltb 0 c.waiting_receivers && (c.unbuf_stage == 0) && (length c.recv_selectors == 0)
      then section s [] (waits not_empty try_send_again)
      else if ((c.unbuf_stage == 1) && is_op receiving c.active_unbuf_op)
          || ltb 0 (length c.recv_selectors)
      then unbuffered_sync sending p s
      else answer s channel_full

  unfoldable pub try_send_added : State A → Buffer.Status × Buffer A → Section A
  try_send_added s (buffer_success, b) =
      section (with_chan s (record s.chan { buffer = b })) []
        (returns (notify_select_receivers ∷ signals not_empty ∷ []) success)
  try_send_added s (buffer_error, b) = answer s channel_full

  unfoldable pub channel_non_blocking_send : ℕ → State A → Section A
  unfolding try_send_unbuffered try_send_added buffer_add
  channel_non_blocking_send p s =
      if s.chan.closed_flag
      then answer s closed_error
      else if s.chan.is_unbuffered
      then try_send_unbuffered p s
      else try_send_added s (buffer_add s.chan.buffer (s.vars p))

  unfoldable pub try_receive_unbuffered : ℕ → State A → Section A
  unfolding unbuffered_sync
  try_receive_unbuffered p s =
      let c = s.chan in
      if ltb 0 c.waiting_senders && (c.unbuf_stage == 0) && (length c.send_selectors == 0)
      then section s [] (waits not_full try_receive_again)
      else if ((c.unbuf_stage == 1) && is_op sending c.active_unbuf_op)
          || ltb 0 (length c.send_selectors)
      then unbuffered_sync receiving p s
      else answer s channel_empty

  unfoldable pub try_receive_removed : ℕ → State A → Buffer.Status × Option A × Buffer A → Section A
  try_receive_removed p s (buffer_success, out, b) =
      let s' = store s p out in
      section (with_chan s' (record s'.chan { buffer = b })) []
        (returns (notify_select_senders ∷ signals not_full ∷ []) success)
  try_receive_removed p s (buffer_error, out, b) = answer s channel_empty

  unfoldable pub channel_non_blocking_receive : ℕ → State A → Section A
  unfolding try_receive_unbuffered try_receive_removed buffer_remove
  channel_non_blocking_receive p s =
      if s.chan.closed_flag
      then answer s closed_error
      else if s.chan.is_unbuffered
      then try_receive_unbuffered p s
      else try_receive_removed p s (buffer_remove s.chan.buffer)

  unfoldable pub channel_close : State A → Section A
  channel_close s =
      if s.chan.closed_flag
      then answer s closed_error
      else section (with_chan s (record s.chan { closed_flag = true })) [] (
          returns
            (notify_select_receivers
              ∷ notify_select_senders
              ∷ broadcasts not_empty
              ∷ broadcasts not_full
              ∷ broadcasts rendezvous_wait
              ∷ broadcasts rendezvous_complete
              ∷ [])
            success)

  -- `channel_destroy` takes no lock.
  unfoldable pub channel_destroy : Channel A → Status
  channel_destroy c = if c.closed_flag then success else destroy_error

  -- The section that starts at a point, of a thread whose variable is at `p`.
  unfoldable pub run_section : Point → ℕ → State A → Section A
  unfolding channel_send channel_receive channel_non_blocking_send channel_non_blocking_receive
      channel_close end_rendezvous leave_line
  run_section send p s = channel_send p s
  run_section receive p s = channel_receive p s
  run_section try_send p s = channel_non_blocking_send p s
  run_section try_receive p s = channel_non_blocking_receive p s
  run_section close p s = channel_close s
  run_section send_again p s = send_buffered p s
  run_section receive_again p s = receive_buffered p s
  run_section try_send_again p s = try_send_unbuffered p s
  run_section try_receive_again p s = try_receive_unbuffered p s
  run_section sync_done p s = end_rendezvous s
  run_section (sync_again op) p s = unbuffered_sync op p (leave_line op s)
