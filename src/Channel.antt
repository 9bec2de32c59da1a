-- ===== src/Channel.antt =====
-- concurrency-project-FreezeKickerz/channel.h and channel.c: channels between threads. An operation
-- is cut where it holds no lock: a section is what a thread does between taking `chan_mutex` and
-- releasing it, at a return or inside `pthread_cond_wait`. `System` interleaves the sections.
pub mod System
pub mod Operations
mod Fifo
mod Close
mod Threads
mod Waits
mod Rendezvous
mod Select
mod Selected
mod Selectors
mod SelectTests
mod Tests
use cmpsc_473_operating_syst.Common.{
  ℕ, ◌+◌, ◌-◌, Bool, true, false, ◌&&◌, ◌||◌, not, Option, none, some, List, [], ◌∷◌, ltb, ◌==◌,
  if◌then◌else◌, length,
}
use cmpsc_473_operating_syst.Buffer.{
  Buffer, buffer_success, buffer_error, buffer_create, buffer_add, buffer_remove,
}
use cmpsc_473_operating_syst.Buffer

-- `enum channel_status`; the first two are both 0.
pub data Status : Type 0 where
  channel_empty channel_full success generic_error closed_error destroy_error : Status

-- `unbuf_op_send` and `unbuf_op_receive`; `unbuf_op_none` is `none`.
pub data Op : Type 0 where
  sending receiving : Op

-- The condition variables of a channel.
pub data Cond : Type 0 where
  not_full not_empty rendezvous_wait rendezvous_complete : Cond

-- What wakes other threads: `pthread_cond_signal`, `pthread_cond_broadcast`, and the posts to the
-- semaphores of a list of selectors.
pub data Wake : Type 0 where
  signals broadcasts : Cond → Wake
  notify_select_senders notify_select_receivers : Wake

-- `channel_t`, less its locks and condition variables. A selector is the number of a semaphore, and
-- `unbuf_data` the address of a variable; the buffer of an unbuffered channel, NULL in the source,
-- is an empty one.
pub record Channel (A : Type 0) : Type 0 where
  pub buffer : Buffer A
  pub closed_flag : Bool
  pub send_selectors : List ℕ
  pub recv_selectors : List ℕ
  pub is_unbuffered : Bool
  pub active_unbuf_op : Option Op
  pub unbuf_stage : ℕ
  pub unbuf_data : ℕ
  pub waiting_senders : ℕ
  pub waiting_receivers : ℕ

-- Where a section starts: at the start of an operation, or behind one of its waits.
pub data Point : Type 0 where
  send receive try_send try_receive close : Point
  send_again receive_again try_send_again try_receive_again : Point
  sync_done : Point
  sync_again : Op → Point

-- How a section ends: the operation returns, once it has woken others, or waits.
pub data Next : Type 0 where
  returns : List Wake → Status → Next
  waits : Cond → Point → Next

-- A channel with the variables that operations read and write, by their addresses.
pub record State (A : Type 0) : Type 0 where
  pub chan : Channel A
  pub vars : ℕ → A

-- What a section leaves, with the threads it wakes before it releases the lock.
pub record Section (A : Type 0) : Type 0 where
  pub state : State A
  pub wakes : List Wake
  pub next : Next

abbrev pub is_op : Op → Option Op → Bool
is_op sending (some sending) = true
is_op receiving (some receiving) = true
is_op op other = false

module _ {A : Type 0} where
  -- `storage` is the array of the buffer; `memory` says whether `malloc` gives the channel.
  unfoldable pub channel_create : (memory : Bool) (storage : List A) → ℕ → Option (Channel A)
  unfolding buffer_create
  channel_create memory storage size =
      if memory
      then some (record {
        buffer = if size == 0 then buffer_create [] 0 else buffer_create storage size;
        closed_flag = false;
        send_selectors = [];
        recv_selectors = [];
        is_unbuffered = size == 0;
        active_unbuf_op = none;
        unbuf_stage = 0;
        unbuf_data = 0;
        waiting_senders = 0;
        waiting_receivers = 0;
      })
      else none

  abbrev pub section : State A → List Wake → Next → Section A
  section s wakes next = record { state = s; wakes = wakes; next = next }

  -- An end that changes nothing and wakes nobody.
  abbrev pub answer : State A → Status → Section A
  answer s status = section s [] (returns [] status)

  abbrev pub with_chan : State A → Channel A → State A
  with_chan s c = record s { chan = c }

  -- `*p = x`
  abbrev pub assign : State A → ℕ → A → State A
  assign s p x = record s { vars = λ a. if a == p then x else s.vars a }

  -- Stage 0 of `unbuffered_sync`: the first party of a rendezvous.
  unfoldable pub first_party : Op → ℕ → State A → Section A
  first_party op p s =
      section
        (with_chan s (record s.chan { unbuf_stage = 1; active_unbuf_op = some op; unbuf_data = p }))
        (elim op [
          | sending ↦ notify_select_receivers ∷ broadcasts not_empty ∷ []
          | receiving ↦ notify_select_senders ∷ broadcasts not_full ∷ []
        ])
        (waits rendezvous_complete sync_done)

  -- Waiting for a rendezvous to end, in stage 1 with the same operation, or in stage 2.
  unfoldable pub line_up : Op → State A → Section A
  line_up sending s =
      section (with_chan s (record s.chan { waiting_senders = s.chan.waiting_senders + 1 })) []
        (waits rendezvous_wait (sync_again sending))
  line_up receiving s =
      section (with_chan s (record s.chan { waiting_receivers = s.chan.waiting_receivers + 1 })) []
        (waits rendezvous_wait (sync_again receiving))

  -- The complementary operation, with its variable at `p`.
  unfoldable pub exchange : Op → ℕ → State A → State A
  exchange receiving p s = assign s p (s.vars s.chan.unbuf_data)
  exchange sending p s = assign s s.chan.unbuf_data (s.vars p)

  unfoldable pub second_party : Op → ℕ → State A → Section A
  unfolding exchange
  second_party op p s =
      let s' = exchange op p s in
      section (with_chan s' (record s'.chan { unbuf_stage = 2 })) (signals rendezvous_complete ∷ [])
        (returns [] success)

  unfoldable pub unbuffered_sync : Op → ℕ → State A → Section A
  unfolding first_party line_up second_party
  unbuffered_sync op p s =
      if s.chan.unbuf_stage == 0
      then first_party op p s
      else if s.chan.unbuf_stage == 1
      then (if is_op op s.chan.active_unbuf_op then line_up op s else second_party op p s)
      else line_up op s

  -- Behind the wait of the first party.
  unfoldable pub end_rendezvous : State A → Section A
  end_rendezvous s =
      section (with_chan s (record s.chan { unbuf_stage = 0 })) (broadcasts rendezvous_wait ∷ [])
        (returns [] success)

  -- Behind the wait of `line_up`.
  unfoldable pub leave_line : Op → State A → State A
  leave_line sending s =
      with_chan s (record s.chan { waiting_senders = s.chan.waiting_senders - 1 })
  leave_line receiving s =
      with_chan s (record s.chan { waiting_receivers = s.chan.waiting_receivers - 1 })
