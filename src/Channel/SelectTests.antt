-- ===== src/Channel/SelectTests.antt =====
-- The theorems on rendezvous and select at concrete channels.
use cmpsc_473_operating_syst.Common.{
  ℕ, ◌≡◌, refl, ◌≢◌, Bool, true, false, Option, none, some, ◌+◌, List, [], ◌∷◌,
}
use cmpsc_473_operating_syst.Buffer.{buffer_create, buffer_add, buffer_remove}
use cmpsc_473_operating_syst.Channel.{
  success, Op, sending, receiving, signals, broadcasts, rendezvous_wait, rendezvous_complete,
  sync_done, Channel, State, returns, waits, unbuffered_sync, end_rendezvous, first_party, Section,
}
use cmpsc_473_operating_syst.Channel.Operations.{
  channel_close, channel_non_blocking_send, channel_non_blocking_receive, try_send_added,
  try_receive_removed,
}
use cmpsc_473_operating_syst.Channel.Rendezvous.{rendezvous}
use cmpsc_473_operating_syst.Channel.Select.{
  Ending, Entry, World, init_select, cleanup_select, scan, visit, visit_send, visit_receive,
  channel_select, returned, select_rounds, conclude, enlist,
}
use cmpsc_473_operating_syst.Channel.Selected.{scan-Picked, Picked}
use cmpsc_473_operating_syst.Channel.Selectors.{has, selectors, cleanup_select-init_select}

abbrev empty : Bool → List ℕ → ℕ → Channel ℕ
empty unbuffered storage capacity = record {
  buffer = buffer_create storage capacity;
  closed_flag = false;
  send_selectors = [];
  recv_selectors = [];
  is_unbuffered = unbuffered;
  active_unbuf_op = none;
  unbuf_stage = 0;
  unbuf_data = 0;
  waiting_senders = 0;
  waiting_receivers = 0;
}

-- The variables 0 and 1 hold 7 and 8.
abbrev meeting : State ℕ
meeting = record { chan = empty true [] 0; vars = λ a. a + 7 }

rendezvous_example :
    let first = unbuffered_sync receiving 0 meeting in
    let second = unbuffered_sync sending 1 first.state in
    let last = end_rendezvous second.state in
    (first.next ≡ waits rendezvous_complete sync_done)
    × (second.wakes ≡ signals rendezvous_complete ∷ [])
    × (second.next ≡ returns [] success)
    × (last.wakes ≡ broadcasts rendezvous_wait ∷ [])
    × (last.next ≡ returns [] success)
    × (last.state.chan.unbuf_stage ≡ 0)
    × (last.state.vars 0 ≡ 8)
    × ((a : ℕ) → a ≢ 0 → last.state.vars a ≡ a + 7)
rendezvous_example = rendezvous receiving 0 1 meeting refl

-- Channel 0 is empty, and channel 1 has room.
abbrev two : World ℕ
two = record { chans = λ k. empty false (0 ∷ []) 1; vars = λ a. a + 7 }

abbrev from_0_or_to_1 : List Entry
from_0_or_to_1 =
    record { channel = 0; dir = receiving; data_at = 0 }
    ∷ record { channel = 1; dir = sending; data_at = 1 }
    ∷ []

scan-Picked_example :
    let (found, w) = scan (λ k w. w) from_0_or_to_1 0 two in
    Picked (λ k w. w) from_0_or_to_1 0 two found w
scan-Picked_example = scan-Picked (λ k w. w) from_0_or_to_1 0 two

abbrev picks : Ending ℕ → Option ℕ
picks (returned w ws index status) = index
picks e = none

channel_select-second : picks (channel_select 1 (λ n k w. w) from_0_or_to_1 5 two) ≡ some 1
unfolding channel_select select_rounds init_select enlist scan visit visit_send visit_receive
    channel_non_blocking_send channel_non_blocking_receive try_send_added try_receive_removed
    buffer_create buffer_add buffer_remove conclude
channel_select-second = refl

-- The channel 0 stands in two entries.
abbrev both_ways : List Entry
both_ways = record { channel = 0; dir = sending; data_at = 1 } ∷ from_0_or_to_1

two-unused : (k : ℕ) (d : Op) → has 5 (selectors d (two.chans k)) ≡ false
two-unused k sending = refl
two-unused k receiving = refl

cleanup_select-init_select_example : cleanup_select both_ways 5 (init_select both_ways 5 two) ≡ two
cleanup_select-init_select_example = cleanup_select-init_select 5 both_ways two two-unused

-- A receiver that `channel_close` wakes returns SUCCESS with its variable as it was.
abbrev abandoned : Section ℕ
abandoned = end_rendezvous (channel_close (unbuffered_sync receiving 0 meeting).state).state

abandoned-success : (abandoned.next ≡ returns [] success) × (abandoned.state.vars 0 ≡ 7)
unfolding unbuffered_sync first_party channel_close end_rendezvous
abandoned-success = (refl, refl)

-- At a closed unbuffered channel `channel_select` stores no index.
abbrev shut : World ℕ
shut = record two { chans = λ k. record (empty true [] 0) { closed_flag = true } }

shut-returned : picks (channel_select 1 (λ n k w. w) from_0_or_to_1 5 shut) ≡ none
unfolding channel_select select_rounds init_select enlist scan visit visit_receive conclude
    cleanup_select
shut-returned = refl
