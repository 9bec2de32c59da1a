-- ===== src/Channel/Selected.antt =====
-- The entry that channel_select picks.
use cmpsc_473_operating_syst.Common.{
  ℕ, zero, suc, ◌+◌, ◌<◌, ◌≡◌, refl, ap, sym, ◌⊎◌, inl, inr, Bool, true, false, ◌&&◌, ◌||◌, Option,
  none, some, List, [], ◌∷◌, length, get_elem?, arith, leb, ltb, ◌==◌, ==_iff, if◌then◌else◌,
  Bool-cases,
}
use mathlib.Core.Option.{some-injective}
use cmpsc_473_operating_syst.Buffer.{buffer_add, buffer_remove}
use cmpsc_473_operating_syst.Channel.{
  Op, sending, receiving, Channel, State, is_op, unbuffered_sync,
}
use cmpsc_473_operating_syst.Channel.Operations.{
  channel_non_blocking_send, channel_non_blocking_receive, try_send_added, try_receive_removed,
}
use cmpsc_473_operating_syst.Channel.Select.{
  Entry, World, Visit, passes, leaves_closed, acts, at_channel, put_channel, visit, visit_send,
  visit_receive, left_by, stop_if, scan,
}

module _ {A : Type 0} where
  -- Another thread, or a selector, waits at an unbuffered channel to do the opposite.
  abbrev pub has_partner : Op → Channel A → Bool
  has_partner sending c =
      ((c.unbuf_stage == 1) && is_op receiving c.active_unbuf_op) || ltb 0 (length c.recv_selectors)
  has_partner receiving c =
      ((c.unbuf_stage == 1) && is_op sending c.active_unbuf_op) || ltb 0 (length c.send_selectors)

  -- The buffer has room for a value, or a value.
  abbrev pub has_room : Op → Channel A → Bool
  has_room sending c = ltb c.buffer.size c.buffer.capacity
  has_room receiving c = ltb 0 c.buffer.size

  -- An operation at a channel need not wait: it is closed, or can do it now.
  abbrev pub ready : Op → Channel A → Bool
  ready d c = c.closed_flag || (if c.is_unbuffered then has_partner d c else has_room d c)

  -- What is done at a channel that is ready.
  abbrev pub at_ready : Op → ℕ → State A → Visit A
  at_ready d p s =
      if s.chan.is_unbuffered && s.chan.closed_flag
      then leaves_closed
      else acts (
          if s.chan.is_unbuffered then unbuffered_sync d p s else (elim d [
            | sending ↦ channel_non_blocking_send p s
            | receiving ↦ channel_non_blocking_receive p s
          ]))

  abbrev Visited : Op → ℕ → State A → Visit A → Type 0
  Visited d p s v =
      ((ready d s.chan ≡ true) × (v ≡ at_ready d p s)) ⊎ ((ready d s.chan ≡ false) × (v ≡ passes s))

  visit_send-Visited : (p : ℕ) (s : State A) → Visited sending p s (visit_send p s)
  unfolding visit_send channel_non_blocking_send try_send_added buffer_add
  visit_send-Visited p s = elim (Bool-cases s.chan.is_unbuffered) [
    | inl unbuffered ↦ rw unbuffered (elim (Bool-cases s.chan.closed_flag) [
      | inl shut ↦ rw shut (inl (refl, refl))
      | inr open_flag ↦ rw open_flag (elim (Bool-cases (has_partner sending s.chan)) [
        | inl partner ↦ rw partner (inl (refl, refl))
        | inr alone ↦ rw alone (inr (refl, refl))
      ])
    ])
    | inr buffered ↦ rw buffered (elim (Bool-cases s.chan.closed_flag) [
      | inl shut ↦ rw shut (inl (refl, refl))
      | inr open_flag ↦ rw open_flag (elim (Bool-cases (has_room sending s.chan)) [
        | inl room ↦
            let full : leb s.chan.buffer.capacity s.chan.buffer.size ≡ false = ground arith in
            rw (room, full) (inl (refl, refl))
        | inr stuck ↦
            let full : leb s.chan.buffer.capacity s.chan.buffer.size ≡ true = ground arith in
            rw (stuck, full) (inr (refl, refl))
      ])
    ])
  ]

  visit_receive-Visited : (p : ℕ) (s : State A) → Visited receiving p s (visit_receive p s)
  unfolding visit_receive channel_non_blocking_receive try_receive_removed buffer_remove
  visit_receive-Visited p s = elim (Bool-cases s.chan.is_unbuffered) [
    | inl unbuffered ↦ rw unbuffered (elim (Bool-cases s.chan.closed_flag) [
      | inl shut ↦ rw shut (inl (refl, refl))
      | inr open_flag ↦ rw open_flag (elim (Bool-cases (has_partner receiving s.chan)) [
        | inl partner ↦ rw partner (inl (refl, refl))
        | inr alone ↦ rw alone (inr (refl, refl))
      ])
    ])
    | inr buffered ↦ rw buffered (elim (Bool-cases s.chan.closed_flag) [
      | inl shut ↦ rw shut (inl (refl, refl))
      | inr open_flag ↦ rw open_flag (elim (Bool-cases (has_room receiving s.chan)) [
        | inl room ↦ rw room (inl (refl, refl))
        | inr stuck ↦ rw stuck (inr (refl, refl))
      ])
    ])
  ]

  visit-Visited : (e : Entry) (s : State A) → Visited e.dir e.data_at s (visit e s)
  unfolding visit
  visit-Visited e s =
      elim e.dir
        as (λ d.
          Visited d e.data_at s
            (elim d [ sending ↦ visit_send e.data_at s | receiving ↦ visit_receive e.data_at s ])) [
              | sending ↦ visit_send-Visited e.data_at s
              | receiving ↦ visit_receive-Visited e.data_at s
            ]

  -- The world behind `n` turns of the other threads, `others k` being turn `k`.
  abbrev pub after : (ℕ → World A → World A) → World A → ℕ → World A
  after others w zero = w
  after others w (suc n) = after (λ k. others (suc k)) (others 0 w) n

  -- The entries before `n` were not ready at their visits.
  abbrev Passed : (ℕ → World A → World A) → List Entry → World A → ℕ → Type 0
  Passed others es w n =
      (m : ℕ) (e : Entry)
      → m < n
      → get_elem? es m ≡ some e
      → ready e.dir ((after others w (suc m)).chans e.channel) ≡ false

  Passed-cons :
      (others : ℕ → World A → World A) (e : Entry) (es : List Entry) (w : World A) (n : ℕ)
      → ready e.dir ((others 0 w).chans e.channel) ≡ false
      → Passed (λ k. others (suc k)) es (others 0 w) n
      → Passed others (e ∷ es) w (suc n)
  Passed-cons others e es w n u h zero e' small is =
      let same : e ≡ e' = some-injective _ _ is in rw (← same) u
  Passed-cons others e es w n u h (suc m) e' small is = h m e' (omega arith) is

  -- What the `for` finds, from index `i` on.
  abbrev pub Picked :
      (ℕ → World A → World A)
      → List Entry
      → ℕ
      → World A
      → Option (ℕ × Entry × Visit A)
      → World A
      → Type 0
  Picked others es i w none w' = (w' ≡ after others w (length es)) × Passed others es w (length es)
  Picked others es i w (some (k, e, v)) w' =
      (n : ℕ) × (k ≡ i + n)
      × (get_elem? es n ≡ some e)
      × (w' ≡ after others w (suc n))
      × (ready e.dir (w'.chans e.channel) ≡ true)
      × (v ≡ at_ready e.dir e.data_at (at_channel w' e.channel))
      × Passed others es w n

  Picked-cons :
      (others : ℕ → World A → World A) (e : Entry) (es : List Entry) (i : ℕ) (w : World A)
      → ready e.dir ((others 0 w).chans e.channel) ≡ false
      → (found : Option (ℕ × Entry × Visit A)) (w' : World A)
      → Picked (λ k. others (suc k)) es (suc i) (others 0 w) found w'
      → Picked others (e ∷ es) i w found w'
  Picked-cons others e es i w u none w' (world, h) = (world, Passed-cons others e es w _ u h)
  Picked-cons others e es i w u (some (k, e', v)) w' (n, index, at, world, able, act, before) =
      (suc n, omega arith, at, world, able, act, Passed-cons others e es w n u before)

  put_channel-same : (w : World A) (k : ℕ) → put_channel w k (at_channel w k) ≡ w
  put_channel-same w k =
      ap (λ (chans : ℕ → Channel A). record w { chans = chans }) (λ i j. same j i)
    where
      same : (j : ℕ) → (if j == k then w.chans k else w.chans j) ≡ w.chans j
      same j = elim (Bool-cases (j == k)) [
        | inl hit ↦ rw hit (ap w.chans (sym ((==_iff j k).0 hit)))
        | inr miss ↦ rw miss refl
      ]

  stop_if-at_ready :
      (d : Op) (p : ℕ) (s : State A) (i : ℕ) (e : Entry) (w : World A)
      (rest : Option (ℕ × Entry × Visit A) × World A)
      → stop_if (at_ready d p s) i e w rest ≡ (some (i, e, at_ready d p s), w)
  stop_if-at_ready d p s i e w rest =
      elim (Bool-cases (s.chan.is_unbuffered && s.chan.closed_flag)) [
        | inl shut ↦ rw shut refl
        | inr other ↦ rw other refl
      ]

  Found :
      (ℕ → World A → World A)
      → List Entry
      → ℕ
      → World A
      → Option (ℕ × Entry × Visit A) × World A
      → Type 0
  Found others es i w (found, w') = Picked others es i w found w'

  -- One visit, for whatever follows it.
  visit-Found :
      (others : ℕ → World A → World A) (e : Entry) (es : List Entry) (i : ℕ) (w : World A)
      (v : Visit A) (next : World A → Option (ℕ × Entry × Visit A) × World A)
      → Visited e.dir e.data_at (at_channel (others 0 w) e.channel) v
      → ((u : World A) → Found (λ k. others (suc k)) es (suc i) u (next u))
      → Found others
          (e ∷ es)
          i
          w
          (stop_if v i e (others 0 w) (next (left_by v e.channel (others 0 w))))
  unfolding Found
  visit-Found others e es i w v next (inl (able, is)) h =
      rw
        (
          is,
          stop_if-at_ready e.dir e.data_at (at_channel (others 0 w) e.channel) i e (others 0 w) (
              next (
                left_by (at_ready e.dir e.data_at (at_channel (others 0 w) e.channel)) e.channel
                  (others 0 w))),
        )
        (0, omega arith, refl, refl, able, refl, λ m e' small at. absurd (omega arith))
  visit-Found others e es i w v next (inr (unable, is)) h =
      rw (is, put_channel-same (others 0 w) e.channel)
        (Picked-cons others e es i w unable _ _ (h (others 0 w)))

  -- The `for` stops at the first entry whose channel is ready for its operation at the visit: closed,
  -- or, without a buffer, with a partner there, or else with room to send or a value to receive. There
  -- it runs the operation, or leaves with CLOSED_ERROR where a channel without buffer is closed. The
  -- channel of each earlier entry was not ready when it was visited, and up to there only other threads
  -- have changed channels and variables. If the `for` runs to its end, no entry was ready, and only
  -- other threads have changed anything.
  pub scan-Picked :
      (others : ℕ → World A → World A) (es : List Entry) (i : ℕ) (w : World A)
      → let (found, w') = scan others es i w in Picked others es i w found w'
  unfolding scan Found
  scan-Picked others [] i w = (refl, λ m e small is. absurd (omega arith))
  scan-Picked others (e ∷ es) i w =
      visit-Found others e es i w (visit e (at_channel (others 0 w) e.channel))
        (λ u. scan (λ k. others (suc k)) es (suc i) u)
        (visit-Visited e (at_channel (others 0 w) e.channel))
        (λ u. scan-Picked (λ k. others (suc k)) es (suc i) u)
