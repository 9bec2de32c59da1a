-- ===== src/Channel/Waits.antt =====
-- Who waits at a buffered channel, from the moment `channel_close` sets its flag.
use cmpsc_473_operating_syst.Common.{
  ℕ, ◌≡◌, refl, Option, none, some, true, false, List, [], arith, if_either, if_second, ◌≢◌,
}
use cmpsc_473_operating_syst.Buffer
use cmpsc_473_operating_syst.Buffer.{
  Buffer, buffer_success, buffer_error, buffer_add, buffer_remove,
}
use cmpsc_473_operating_syst.Channel.{
  Status, success, Cond, Wake, Point, send, receive, try_send, try_receive, close, send_again,
  receive_again, returns, State, Section, generic_error,
}
use cmpsc_473_operating_syst.Channel.Operations.{
  run_section, send_buffered, send_added, receive_removed, receive_buffered, try_send_added,
  try_receive_removed, channel_send, channel_receive, channel_non_blocking_send,
  channel_non_blocking_receive, channel_close,
}
use cmpsc_473_operating_syst.Channel.System.{
  ready, waiting, waking, returned, update, System, Step, call, lock_fails, enter, wake, finish,
  spurious, Reach, here, later, initial, ran, after,
}
use cmpsc_473_operating_syst.Channel.Close.{Step-Closed}
use cmpsc_473_operating_syst.Channel.Threads.{
  after-returns, returns-Waits, closing, closing-announces, announces-nil, to_wake, Pending,
  is_plain, Waits, AllPlain, update-Pending, apply_all-Pending, wake-Pending, after-is_plain,
  update-AllPlain, apply-AllPlain, apply_all-AllPlain, start-is_plain, plain_at,
}

module _ {A : Type 0} where
  -- A section at a buffered channel.
  abbrev Stays : State A → Section A → Type 0
  Stays s r = (r.state.chan.is_unbuffered ≡ false) × Waits s.chan.closed_flag r.next

  module _ (i : ℕ) (s : State A) (buffered : s.chan.is_unbuffered ≡ false) where
    send_buffered-Stays : Stays s (send_buffered i s)
    unfolding send_buffered buffer_add send_added
    send_buffered-Stays = ground arith

    receive_removed-Stays :
        (r : Buffer.Status × Option A × Buffer A) → Stays s (receive_removed i s r)
    unfolding receive_removed
    receive_removed-Stays (buffer_success, none, b) = (buffered, tt)
    receive_removed-Stays (buffer_success, some x, b) = (buffered, tt)
    receive_removed-Stays (buffer_error, out, b) = ground arith

    try_send_added-Stays : (r : Buffer.Status × Buffer A) → Stays s (try_send_added s r)
    unfolding try_send_added
    try_send_added-Stays (buffer_success, b) = (buffered, tt)
    try_send_added-Stays (buffer_error, b) = (buffered, tt)

    try_receive_removed-Stays :
        (r : Buffer.Status × Option A × Buffer A) → Stays s (try_receive_removed i s r)
    unfolding try_receive_removed
    try_receive_removed-Stays (buffer_success, none, b) = (buffered, tt)
    try_receive_removed-Stays (buffer_success, some x, b) = (buffered, tt)
    try_receive_removed-Stays (buffer_error, out, b) = (buffered, tt)

    run_section-Stays : (point : Point) → is_plain point ≡ true → Stays s (run_section point i s)
    unfolding run_section channel_send channel_receive channel_non_blocking_send
        channel_non_blocking_receive channel_close receive_buffered
    run_section-Stays send plain =
        if_either (Stays s) s.chan.closed_flag (buffered, tt)
          (if_second (Stays s) _ _ buffered send_buffered-Stays)
    run_section-Stays receive plain =
        if_either (Stays s) s.chan.closed_flag (buffered, tt)
          (if_second (Stays s) _ _ buffered (receive_removed-Stays _))
    run_section-Stays try_send plain =
        if_either (Stays s) s.chan.closed_flag (buffered, tt)
          (if_second (Stays s) _ _ buffered (try_send_added-Stays _))
    run_section-Stays try_receive plain =
        if_either (Stays s) s.chan.closed_flag (buffered, tt)
          (if_second (Stays s) _ _ buffered (try_receive_removed-Stays _))
    run_section-Stays close plain =
        if_either (Stays s) s.chan.closed_flag (buffered, tt) (buffered, tt)
    run_section-Stays send_again plain = send_buffered-Stays
    run_section-Stays receive_again plain = receive_removed-Stays _
    run_section-Stays point plain = absurd (ground (arith, plain))

  -- A buffered channel with its threads.
  abbrev pub InPlace : System A → Type 0
  InPlace s = (s.state.chan.is_unbuffered ≡ false) × AllPlain s.threads

  Step-InPlace : {s u : System A} → InPlace s → Step s u → InPlace u
  Step-InPlace {s} (b, h) (call i x point start free eq) =
      rw eq (b, update-AllPlain s.threads i (ready point) h (start-is_plain point start))
  Step-InPlace {s} (b, h) (lock_fails i point start at eq) =
      rw eq (b, update-AllPlain s.threads i (returned generic_error) h refl)
  Step-InPlace {s} (b, h) (wake i k w ws status at chosen eq) =
      rw eq (b, apply-AllPlain _ k w (update-AllPlain s.threads i (waking ws status) h refl))
  Step-InPlace {s} (b, h) (finish i status at eq) =
      rw eq (b, update-AllPlain s.threads i (returned status) h refl)
  Step-InPlace {s} (b, h) (spurious i c point at eq) =
      rw eq (b, update-AllPlain s.threads i (ready point) h (plain_at s.threads i h at))
  Step-InPlace {s} (b, h) (enter i k point at chosen eq) =
      let r = run_section point i s.state in
      let (b', w) = run_section-Stays i s.state b point (plain_at s.threads i h at) in
      rw eq (
        b',
        apply_all-AllPlain _ k r.wakes
            (update-AllPlain s.threads i (after r.next) h (after-is_plain _ r.next w)),
      )

  Reach-InPlace : {s u : System A} → InPlace s → Reach s u → InPlace u
  Reach-InPlace h here = h
  Reach-InPlace h (later r step) = Step-InPlace (Reach-InPlace h r) step

  -- From the section on in which thread `i` closes the channel.
  abbrev Settling : ℕ → System A → Type 0
  Settling i s = (s.state.chan.closed_flag ≡ true) × InPlace s × Pending i s.threads

  Step-Settling : (i : ℕ) {s u : System A} → Settling i s → Step s u → Settling i u
  Step-Settling i {s} (c, h, w) step = (Step-Closed step c, Step-InPlace h step, go step)
    where
      go : {u : System A} → Step s u → Pending i u.threads
      go (call i' x point start free eq) =
          rw eq (update-Pending i i' (ready point) w (ground arith) (λ c p. ground arith))
      go (lock_fails i' point start at eq) =
          rw eq (update-Pending i i' (returned generic_error) w (rw at refl) (λ c p. ground arith))
      go (wake i' k v ws status at chosen eq) = rw eq (wake-Pending i i' k v ws status w at)
      go (finish i' status at eq) =
          rw eq (update-Pending i i' (returned status) w (rw at refl) (λ c p. ground arith))
      go (spurious i' d point at eq) =
          rw eq (update-Pending i i' (ready point) w (rw at refl) (λ c p. ground arith))
      go (enter i' k point at chosen eq) =
          let r = run_section point i' s.state in
          let (b', ends) = run_section-Stays i' s.state h.0 point (plain_at s.threads i' h.1 at) in
          rw eq (
            apply_all-Pending i k r.wakes (
              update-Pending i i' (after r.next) w (rw at refl)
                (after-returns r.next (rw (← c) ends))))

  Reach-Settling : (i : ℕ) {s u : System A} → Settling i s → Reach s u → Settling i u
  Reach-Settling i h here = h
  Reach-Settling i h (later r step) = Step-Settling i (Reach-Settling i h r) step

  ran-Settling :
      (s : System A) (i k : ℕ)
      → InPlace s
      → s.threads i ≡ ready close
      → s.state.chan.closed_flag ≡ false
      → Settling i (ran s i k close)
  unfolding run_section channel_close
  ran-Settling s i k (b, h) at open_yet = rw open_yet (
    refl,
    (b, update-AllPlain s.threads i _ h refl),
    λ j c p e.
        let self : update s.threads i (waking closing success) i ≡ waking closing success =
          ground arith in
        rw self (closing-announces c),
  )

  -- On a buffered channel that threads have used in any way, from the moment on at which thread `i`
  -- closes it, open until then, whatever they do: once `i` has done its wakes no thread waits, and no
  -- section that is about to run will wait.
  pub channel_close_releases :
      {s : State A} {t u : System A} (i k : ℕ)
      → s.chan.is_unbuffered ≡ false
      → Reach (initial s) t
      → t.threads i ≡ ready close
      → t.state.chan.closed_flag ≡ false
      → Reach (ran t i k close) u
      → to_wake (u.threads i) ≡ []
      → ((j : ℕ) (c : Cond) (p : Point) → u.threads j ≢ waiting c p)
        × ((j : ℕ) (p : Point)
            → u.threads j ≡ ready p
            → (ws : List Wake) × (status : Status) × ((run_section p j u.state).next
                ≡ returns ws status))
  channel_close_releases {s} {t} {u} i k buffered before at open_yet reach woken =
      let (c, h, w) =
        Reach-Settling i
          (ran-Settling t i k (Reach-InPlace {s = initial s} (buffered, λ j. refl) before) at
            open_yet)
          reach in
      (
        (λ j c p e. announces-nil c (to_wake (u.threads i)) woken (w j c p e)),
        (λ j p e.
            returns-Waits _
              (rw (← c) (run_section-Stays j u.state h.0 p (plain_at u.threads j h.1 e)).1)),
      )
