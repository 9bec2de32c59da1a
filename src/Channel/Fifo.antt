-- ===== src/Channel/Fifo.antt =====
-- The buffer of a channel, while threads send, receive and close in any order.
use cmpsc_473_operating_syst.Common.{
  ℕ, ◌≤◌, ◌<◌, ◌^◌, if_either, if_second, ◌⊎◌, inl, inr, ◌≡◌, refl, sym, ◌∙◌, true, false, Option,
  none, some, List, [], ◌∷◌, ◌++◌, ◌==◌, length, arith,
}
use cmpsc_473_operating_syst.Buffer.{
  Buffer, buffer_success, buffer_error, buffer_add, buffer_remove, buffer_create,
}
use cmpsc_473_operating_syst.Buffer
use mathlib.Core.Option.{some-injective}
use mathlib.Core.List.{append_assoc, append-nil}
use cmpsc_473_operating_syst.Buffer.Refine.{
  Represents, buffer_add-Represents, buffer_remove-Represents, buffer_create-Represents,
}
use cmpsc_473_operating_syst.Channel.{
  Op, sending, receiving, Channel, Point, send, receive, try_send, try_receive, close, send_again,
  receive_again, try_send_again, try_receive_again, sync_done, sync_again, State, Section, exchange,
  unbuffered_sync, first_party, line_up, second_party, end_rendezvous, leave_line, channel_create,
}
use cmpsc_473_operating_syst.Channel.Operations.{
  send_added, send_buffered, receive_removed, receive_buffered, channel_send, channel_receive,
  try_send_unbuffered, try_send_added, channel_non_blocking_send, try_receive_unbuffered,
  try_receive_removed, channel_non_blocking_receive, channel_close, run_section, store,
}
use cmpsc_473_operating_syst.Channel.System.{
  System, Step, call, lock_fails, enter, wake, finish, spurious, Reach, here, later, initial,
  sent_by, received_by,
}

module _ {A : Type 0} where
  -- The rendezvous leaves the buffer alone.
  abbrev SameBuffer : State A → State A → Type 0
  SameBuffer s u = (u.chan.buffer ≡ s.chan.buffer) × (u.chan.is_unbuffered ≡ s.chan.is_unbuffered)

  unbuffered_sync-SameBuffer :
      (op : Op) (p : ℕ) (s : State A) → SameBuffer s (unbuffered_sync op p s).state
  unfolding unbuffered_sync first_party line_up second_party exchange
  unbuffered_sync-SameBuffer sending p s = ground arith
  unbuffered_sync-SameBuffer receiving p s = ground arith

  -- The buffer holds `q`, and the channel is the buffered one that was created.
  pub record Carries (capacity : ℕ) (q : List A) (s : State A) : Type 0 where
    pub represents : Represents s.chan.buffer q
    pub buffered : s.chan.is_unbuffered ≡ false
    pub bounded : s.chan.buffer.capacity ≡ capacity

  -- A section from `q` on: what it sends goes in behind `q`, and what it receives comes off the
  -- front.
  abbrev Passes : ℕ → List A → Point → ℕ → State A → Section A → Type 0
  Passes capacity q point i s r =
      (q' : List A) × Carries capacity q' r.state
      × (q ++ sent_by point (s.vars i) r.next ≡ received_by point (r.state.vars i) r.next ++ q')

  module _ {capacity : ℕ} {q : List A} {s : State A} (h : Carries capacity q s) where
    open h use {represents, buffered, bounded}

    SameBuffer-Carries : {u : State A} → SameBuffer s u → Carries capacity q u
    SameBuffer-Carries (b, f) = record {
      represents = rw b represents;
      buffered = f ∙ buffered;
      bounded = rw b bounded;
    }

    -- What `buffer_add` and `buffer_remove` may leave.
    abbrev Added : A → Buffer.Status × Buffer A → Type 0
    Added x (status, b) =
        ((status ≡ buffer_success)
          × Represents b (q ++ x ∷ [])
          × (b.capacity ≡ s.chan.buffer.capacity))
        ⊎ ((status ≡ buffer_error) × Represents b q × (b.capacity ≡ s.chan.buffer.capacity))

    abbrev Removed : Buffer.Status × Option A × Buffer A → Type 0
    Removed (status, out, b) =
        ((x : A) × (q' : List A) × (status ≡ buffer_success)
          × (out ≡ some x)
          × (q ≡ x ∷ q')
          × Represents b q'
          × (b.capacity ≡ s.chan.buffer.capacity))
        ⊎ ((status ≡ buffer_error)
            × (out ≡ none)
            × Represents b q
            × (b.capacity ≡ s.chan.buffer.capacity))

    -- Nothing is taken out and nothing put in.
    same-Passes :
        (u : State A) → SameBuffer s u → (q' : List A) × Carries capacity q' u × (q ++ [] ≡ q')
    same-Passes u same = (q, SameBuffer-Carries same, append-nil q)

    module _ (i : ℕ) where
      store-assigned : (x : A) → (store s i (some x)).vars i ≡ x
      store-assigned x = ground arith

      send_added-Passes :
          (r : Buffer.Status × Buffer A)
          → Added (s.vars i) r
          → Passes capacity q send_again i s (send_added s r)
      unfolding send_added
      send_added-Passes (status, b) (inl (e, rep, fixed)) = rw e (
        q ++ s.vars i ∷ [],
        record { represents = rep; buffered = buffered; bounded = fixed ∙ bounded },
        refl,
      )
      send_added-Passes (status, b) (inr (e, rep, fixed)) = rw e (
          if_either (Passes capacity q send_again i s) s.chan.closed_flag (q, h, append-nil q)
            (q, h, append-nil q))

      try_send_added-Passes :
          (r : Buffer.Status × Buffer A)
          → Added (s.vars i) r
          → Passes capacity q try_send i s (try_send_added s r)
      unfolding try_send_added
      try_send_added-Passes (status, b) (inl (e, rep, fixed)) = rw e (
        q ++ s.vars i ∷ [],
        record { represents = rep; buffered = buffered; bounded = fixed ∙ bounded },
        refl,
      )
      try_send_added-Passes (status, b) (inr (e, rep, fixed)) = rw e (q, h, append-nil q)

      receive_removed-Passes :
          (r : Buffer.Status × Option A × Buffer A)
          → Removed r
          → Passes capacity q receive_again i s (receive_removed i s r)
      unfolding receive_removed
      receive_removed-Passes (status, out, b) (inl (x, q', e, e', eq, rep, fixed)) =
          rw (e, e')
            (
              q',
              record { represents = rep; buffered = buffered; bounded = fixed ∙ bounded },
              rw (store-assigned x, eq) (append-nil (x ∷ q')),
            )
      receive_removed-Passes (status, out, b) (inr (e, e', rep, fixed)) = rw e (
          if_either (Passes capacity q receive_again i s) s.chan.closed_flag (q, h, append-nil q)
            (q, h, append-nil q))

      try_receive_removed-Passes :
          (r : Buffer.Status × Option A × Buffer A)
          → Removed r
          → Passes capacity q try_receive i s (try_receive_removed i s r)
      unfolding try_receive_removed
      try_receive_removed-Passes (status, out, b) (inl (x, q', e, e', eq, rep, fixed)) =
          rw (e, e')
            (
              q',
              record { represents = rep; buffered = buffered; bounded = fixed ∙ bounded },
              rw (store-assigned x, eq) (append-nil (x ∷ q')),
            )
      try_receive_removed-Passes (status, out, b) (inr (e, e', rep, fixed)) =
          rw e (q, h, append-nil q)

      -- Every section, from any point.
      run_section-Passes : (point : Point) → Passes capacity q point i s (run_section point i s)
      unfolding run_section channel_send channel_receive channel_non_blocking_send
          channel_non_blocking_receive channel_close send_buffered receive_buffered end_rendezvous
          leave_line try_send_unbuffered try_receive_unbuffered
      run_section-Passes send =
          if_either (Passes capacity q send i s) s.chan.closed_flag (q, h, append-nil q)
            (if_second (Passes capacity q send i s) _ _ buffered
              (send_added-Passes _ (buffer_add-Represents represents (s.vars i))))
      run_section-Passes receive =
          if_either (Passes capacity q receive i s) s.chan.closed_flag (q, h, append-nil q)
            (if_second (Passes capacity q receive i s) _ _ buffered
              (receive_removed-Passes _ (buffer_remove-Represents q represents)))
      run_section-Passes try_send =
          if_either (Passes capacity q try_send i s) s.chan.closed_flag (q, h, append-nil q)
            (if_second (Passes capacity q try_send i s) _ _ buffered
              (try_send_added-Passes _ (buffer_add-Represents represents (s.vars i))))
      run_section-Passes try_receive =
          if_either (Passes capacity q try_receive i s) s.chan.closed_flag (q, h, append-nil q)
            (if_second (Passes capacity q try_receive i s) _ _ buffered
              (try_receive_removed-Passes _ (buffer_remove-Represents q represents)))
      run_section-Passes close =
          if_either (Passes capacity q close i s) s.chan.closed_flag (q, h, append-nil q)
            (same-Passes _ (refl, refl))
      run_section-Passes send_again =
          send_added-Passes _ (buffer_add-Represents represents (s.vars i))
      run_section-Passes receive_again =
          receive_removed-Passes _ (buffer_remove-Represents q represents)
      run_section-Passes try_send_again = same-Passes _ (
          if_either (λ (r : Section A). SameBuffer s r.state) _ (refl, refl)
            (if_either (λ (r : Section A). SameBuffer s r.state) _
              (unbuffered_sync-SameBuffer sending i s) (refl, refl)))
      run_section-Passes try_receive_again = same-Passes _ (
          if_either (λ (r : Section A). SameBuffer s r.state) _ (refl, refl)
            (if_either (λ (r : Section A). SameBuffer s r.state) _
              (unbuffered_sync-SameBuffer receiving i s) (refl, refl)))
      run_section-Passes sync_done = same-Passes _ (refl, refl)
      run_section-Passes (sync_again sending) =
          same-Passes _ (unbuffered_sync-SameBuffer sending i (leave_line sending s))
      run_section-Passes (sync_again receiving) =
          same-Passes _ (unbuffered_sync-SameBuffer receiving i (leave_line receiving s))

  -- The values in the buffer are those that were sent and not yet received, in the order of the
  -- sends.
  abbrev pub InOrder : ℕ → System A → Type 0
  InOrder capacity s = (q : List A) × Carries capacity q s.state × (s.sent ≡ s.received ++ q)

  Step-InOrder :
      {capacity : ℕ} {s u : System A} → InOrder capacity s → Step s u → InOrder capacity u
  Step-InOrder (q, h, e) (call i x point start free eq) =
      rw eq (q, SameBuffer-Carries h (refl, refl), e)
  Step-InOrder (q, h, e) (lock_fails i point start at eq) = rw eq (q, h, e)
  Step-InOrder (q, h, e) (wake i k w ws status at chosen eq) = rw eq (q, h, e)
  Step-InOrder (q, h, e) (finish i status at eq) = rw eq (q, h, e)
  Step-InOrder (q, h, e) (spurious i c point at eq) = rw eq (q, h, e)
  Step-InOrder {capacity} {s} (q, h, e) (enter i k point at chosen eq) =
      let (q', h', e') = run_section-Passes h i point in
      rw eq (q', h', rw e (simp (append_assoc, e')))

  Reach-InOrder :
      {capacity : ℕ} {s u : System A} → InOrder capacity s → Reach s u → InOrder capacity u
  Reach-InOrder h here = h
  Reach-InOrder h (later r step) = Step-InOrder (Reach-InOrder h r) step

  module _ (storage : List A) (capacity : ℕ) (enough : capacity ≤ length storage)
      (small : capacity < 2 ^ 61) (some_room : 0 < capacity) where
    channel_create-Carries :
        {c : Channel A} (vars : ℕ → A)
        → channel_create true storage capacity ≡ some c
        → Carries capacity [] (record { chan = c; vars = vars })
    unfolding channel_create buffer_create
    channel_create-Carries {c} vars e =
        let c_fresh : Channel A = record {
          buffer = buffer_create storage capacity;
          closed_flag = false;
          send_selectors = [];
          recv_selectors = [];
          is_unbuffered = false;
          active_unbuf_op = none;
          unbuf_stage = 0;
          unbuf_data = 0;
          waiting_senders = 0;
          waiting_receivers = 0;
        } in
        let never : (capacity == 0) ≡ false = ground arith in
        let made : channel_create true storage capacity ≡ some c_fresh = simp (never) in
        let same : c_fresh ≡ c = some-injective _ _ (sym made ∙ e) in
        rw (← same) (record {
          represents = buffer_create-Represents storage capacity enough small;
          buffered = refl;
          bounded = refl;
        })

    -- From `channel_create` on with a capacity that is not 0 and below 2 ^ 61, over an array of
    -- that many values: whatever threads do and in whatever order, the values sent so far are those
    -- received so far followed by those in the buffer, both in their order, and the buffer holds no
    -- more than the capacity. So no value is lost, repeated or overtaken.
    pub channel_in_order :
        {c : Channel A} {vars : ℕ → A} {u : System A}
        → channel_create true storage capacity ≡ some c
        → Reach (initial (record { chan = c; vars = vars })) u
        → (q : List A) × (u.sent ≡ u.received ++ q)
          × Represents u.state.chan.buffer q
          × (length q ≤ capacity)
    channel_in_order {c} {vars} e reach =
        let (q, h, order) = Reach-InOrder ([], channel_create-Carries vars e, refl) reach in
        (q, order, h.represents, omega (arith, h.represents.fits, h.represents.count, h.bounded))
