-- ===== src/Channel/Select.antt =====
-- channel_select: one operation on the first of several channels that can do it. The channels and
-- variables are a `World`; what other threads do to it between two visits is an argument.
use cmpsc_473_operating_syst.Common.{
  ℕ, zero, suc, Bool, true, false, ◌&&◌, ◌||◌, Option, none, some, List, [], ◌∷◌, ◌++◌, ltb, ◌==◌,
  if◌then◌else◌, length,
}
use cmpsc_473_operating_syst.Channel.{
  Status, channel_empty, channel_full, generic_error, closed_error, Cond, Wake, Point, Op, sending,
  receiving, Channel, Next, returns, waits, State, Section, is_op, unbuffered_sync,
}
use cmpsc_473_operating_syst.Channel.Operations.{
  channel_non_blocking_send, channel_non_blocking_receive,
}

-- `select_t`: the number of a channel, `SEND` or `RECV`, and the address of `data`.
pub record Entry : Type 0 where
  pub channel : ℕ
  pub dir : Op
  pub data_at : ℕ

pub record World (A : Type 0) : Type 0 where
  pub chans : ℕ → Channel A
  pub vars : ℕ → A

-- What a visit of an entry comes to: it passes the channel by, in some state; it returns at a closed
-- unbuffered channel; or it runs a section that ends the `for`.
pub data Visit (A : Type 0) : Type 0 where
  passes : State A → Visit A
  leaves_closed : Visit A
  acts : Section A → Visit A

-- Where `channel_select` stands: it waits for its semaphore; it has returned, once it has woken
-- others, with what it stored in `*sel_idx`; or it waits for the partner of a rendezvous, behind
-- which it cleans up and returns as it does elsewhere.
pub data Ending (A : Type 0) : Type 0 where
  blocked : World A → Ending A
  returned : World A → List Wake → Option ℕ → Status → Ending A
  meets : World A → List Wake → ℕ → Cond → Point → Ending A

-- `list_remove` of what `list_find` finds.
abbrev pub remove_first : ℕ → List ℕ → List ℕ
remove_first sem [] = []
remove_first sem (x ∷ xs) = if x == sem then xs else x ∷ remove_first sem xs

-- `st` is 0, which is both CHANNEL_FULL and CHANNEL_EMPTY. A section that answers it wakes no one.
abbrev pub is_zero : Next → Bool
is_zero (returns ws channel_full) = true
is_zero (returns ws channel_empty) = true
is_zero next = false

module _ {A : Type 0} where
  unfoldable pub add_select_sender : ℕ → Channel A → Channel A
  add_select_sender sem c = record c { send_selectors = c.send_selectors ++ sem ∷ [] }

  unfoldable pub remove_select_sender : ℕ → Channel A → Channel A
  remove_select_sender sem c = record c { send_selectors = remove_first sem c.send_selectors }

  unfoldable pub add_select_receiver : ℕ → Channel A → Channel A
  add_select_receiver sem c = record c { recv_selectors = c.recv_selectors ++ sem ∷ [] }

  unfoldable pub remove_select_receiver : ℕ → Channel A → Channel A
  remove_select_receiver sem c = record c { recv_selectors = remove_first sem c.recv_selectors }

  abbrev pub at_channel : World A → ℕ → State A
  at_channel w k = record { chan = w.chans k; vars = w.vars }

  abbrev pub put_channel : World A → ℕ → State A → World A
  put_channel w k s = record { chans = λ j. if j == k then s.chan else w.chans j; vars = s.vars }

  abbrev pub change : World A → ℕ → (Channel A → Channel A) → World A
  change w k f = record w { chans = λ j. if j == k then f (w.chans j) else w.chans j }

  -- The body of each loop.
  unfoldable pub enlist : ℕ → Entry → World A → World A
  unfolding add_select_sender add_select_receiver
  enlist sem e w =
      change w e.channel
        (elim e.dir [ sending ↦ add_select_sender sem | receiving ↦ add_select_receiver sem ])

  unfoldable pub delist : ℕ → Entry → World A → World A
  unfolding remove_select_sender remove_select_receiver
  delist sem e w =
      change w e.channel
        (elim e.dir [ sending ↦ remove_select_sender sem | receiving ↦ remove_select_receiver sem ])

  unfoldable pub init_select : List Entry → ℕ → World A → World A
  init_select [] sem w = w
  init_select (e ∷ es) sem w = init_select es sem (enlist sem e w)

  unfoldable pub cleanup_select : List Entry → ℕ → World A → World A
  cleanup_select [] sem w = w
  cleanup_select (e ∷ es) sem w = cleanup_select es sem (delist sem e w)

  abbrev pub unless_zero : Section A → Visit A
  unless_zero r = if is_zero r.next then passes r.state else acts r

  unfoldable pub visit_send : ℕ → State A → Visit A
  unfolding unbuffered_sync channel_non_blocking_send
  visit_send p s =
      let c = s.chan in
      if c.is_unbuffered
      then (if c.closed_flag
          then leaves_closed
          else if ((c.unbuf_stage == 1) && is_op receiving c.active_unbuf_op)
              || ltb 0 (length c.recv_selectors)
          then acts (unbuffered_sync sending p s)
          else passes s)
      else unless_zero (channel_non_blocking_send p s)

  unfoldable pub visit_receive : ℕ → State A → Visit A
  unfolding unbuffered_sync channel_non_blocking_receive
  visit_receive p s =
      let c = s.chan in
      if c.is_unbuffered
      then (if c.closed_flag
          then leaves_closed
          else if ((c.unbuf_stage == 1) && is_op sending c.active_unbuf_op)
              || ltb 0 (length c.send_selectors)
          then acts (unbuffered_sync receiving p s)
          else passes s)
      else unless_zero (channel_non_blocking_receive p s)

  unfoldable pub visit : Entry → State A → Visit A
  unfolding visit_send visit_receive
  visit e s = elim e.dir [
    | sending ↦ visit_send e.data_at s
    | receiving ↦ visit_receive e.data_at s
  ]

  -- The world that a visit of a channel leaves, where the `for` goes on.
  abbrev pub left_by : Visit A → ℕ → World A → World A
  left_by (passes s) k w = put_channel w k s
  left_by leaves_closed k w = w
  left_by (acts r) k w = w

  -- The `for` goes on, to `rest`, only where a visit passes.
  abbrev pub stop_if :
      Visit A
      → ℕ
      → Entry
      → World A
      → Option (ℕ × Entry × Visit A) × World A
      → Option (ℕ × Entry × Visit A) × World A
  stop_if (passes s) i e w rest = rest
  stop_if leaves_closed i e w rest = (some (i, e, leaves_closed), w)
  stop_if (acts r) i e w rest = (some (i, e, acts r), w)

  -- The `for`, from index `i` on, where `others n` is what other threads do before visit `n`: the index
  -- and the entry that it stops at, the visit there, and the world then.
  unfoldable pub scan :
      (ℕ → World A → World A) → List Entry → ℕ → World A → Option (ℕ × Entry × Visit A) × World A
  unfolding visit
  scan others [] i w = (none, w)
  scan others (e ∷ es) i w =
      let w' = others 0 w in
      let v = visit e (at_channel w' e.channel) in
      let rest = scan (λ k. others (suc k)) es (suc i) (left_by v e.channel w') in
      stop_if v i e w' rest

  -- Behind the `for`, where it has not run to its end.
  unfoldable pub conclude : List Entry → ℕ → ℕ → Entry → Visit A → World A → Ending A
  unfolding cleanup_select
  conclude entries sem i e (passes s) w = blocked w
  conclude entries sem i e leaves_closed w =
      returned (cleanup_select entries sem w) [] none closed_error
  conclude entries sem i e (acts r) w =
      let w' = put_channel w e.channel r.state in
      elim r.next [
        | returns ws status ↦
            returned (cleanup_select entries sem w') (r.wakes ++ ws) (some i) status
        | waits c p ↦ meets w' r.wakes i c p
      ]

  -- The `while`, for so many rounds; `others n k` is what happens before visit `k` of round `n`.
  unfoldable pub select_rounds :
      ℕ → (ℕ → ℕ → World A → World A) → List Entry → ℕ → World A → Ending A
  unfolding scan conclude
  select_rounds zero others entries sem w = blocked w
  select_rounds (suc n) others entries sem w =
      let (found, w') = scan (others 0) entries 0 w in
      let rest = select_rounds n (λ k. others (suc k)) entries sem w' in
      elim found [ none ↦ rest | some (i, e, v) ↦ conclude entries sem i e v w' ]

  unfoldable pub channel_select :
      ℕ → (ℕ → ℕ → World A → World A) → List Entry → ℕ → World A → Ending A
  unfolding init_select select_rounds
  channel_select rounds others [] sem w = returned w [] none generic_error
  channel_select rounds others entries sem w =
      select_rounds rounds others entries sem (init_select entries sem w)
