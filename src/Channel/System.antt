-- ===== src/Channel/System.antt =====
-- Threads at one channel, interleaved in any order. The mutex and the condition variables are those
-- of POSIX: sections exclude one another, a signal wakes a thread that waits, a broadcast all of
-- them, and a wait may also end by itself (`spurious`).
use cmpsc_473_operating_syst.Common.{
  ℕ, ◌≡◌, Bool, true, false, ◌⊎◌, List, [], ◌∷◌, ◌++◌, ◌==◌, if◌then◌else◌,
}
use cmpsc_473_operating_syst.Channel.{
  Status, generic_error, success, Cond, not_full, not_empty, rendezvous_wait, rendezvous_complete,
  Wake, signals, broadcasts, Point, send, receive, try_send, try_receive, close, send_again,
  receive_again, Next, returns, waits, State,
}
use cmpsc_473_operating_syst.Channel.Operations.{run_section}

-- Where a thread stands.
pub data Thread : Type 0 where
  idle : Thread
  ready : Point → Thread
  waiting : Cond → Point → Thread
  waking : List Wake → Status → Thread
  returned : Status → Thread

abbrev pub same_cond : Cond → Cond → Bool
same_cond not_full not_full = true
same_cond not_empty not_empty = true
same_cond rendezvous_wait rendezvous_wait = true
same_cond rendezvous_complete rendezvous_complete = true
same_cond c d = false

abbrev pub waits_on : Cond → Thread → Bool
waits_on c (waiting d p) = same_cond c d
waits_on c t = false

abbrev pub rouse : Cond → Thread → Thread
rouse c (waiting d p) = if same_cond c d then ready p else waiting d p
rouse c t = t

abbrev pub Threads : Type 0
Threads = ℕ → Thread

abbrev pub update : Threads → ℕ → Thread → Threads
update ts i t j = if j == i then t else ts j

-- `k` is the thread that a signal wakes.
abbrev pub apply : ℕ → Wake → Threads → Threads
apply k (signals c) ts j = if j == k then rouse c (ts j) else ts j
apply k (broadcasts c) ts j = rouse c (ts j)
apply k w ts j = ts j

abbrev pub apply_all : ℕ → List Wake → Threads → Threads
apply_all k [] ts = ts
apply_all k (w ∷ ws) ts = apply_all k ws (apply k w ts)

-- A signal is lost only if no thread waits.
abbrev pub Chosen : ℕ → Wake → Threads → Type 0
Chosen k (signals c) ts = (waits_on c (ts k) ≡ true) ⊎ ((j : ℕ) → waits_on c (ts j) ≡ false)
Chosen k w ts = Unit {0}

abbrev pub AllChosen : ℕ → List Wake → Threads → Type 0
AllChosen k [] ts = Unit {0}
AllChosen k (w ∷ ws) ts = Chosen k w ts × AllChosen k ws (apply k w ts)

abbrev pub after : Next → Thread
after (returns ws status) = waking ws status
after (waits c p) = waiting c p

-- The points at which an operation starts.
abbrev pub is_start : Point → Bool
is_start send = true
is_start receive = true
is_start try_send = true
is_start try_receive = true
is_start close = true
is_start p = false

-- With the values sent through the buffer and those received from it so far, in order, which no
-- thread sees.
pub record System (A : Type 0) : Type 0 where
  pub state : State A
  pub threads : Threads
  pub sent : List A
  pub received : List A

module _ {A : Type 0} where
  abbrev pub on_success : A → Next → List A
  on_success x (returns ws success) = x ∷ []
  on_success x next = []

  -- The value that a section has sent, of a thread with the value `x` in its variable.
  abbrev pub sent_by : Point → A → Next → List A
  sent_by send x next = on_success x next
  sent_by send_again x next = on_success x next
  sent_by try_send x next = on_success x next
  sent_by point x next = []

  abbrev pub received_by : Point → A → Next → List A
  received_by receive x next = on_success x next
  received_by receive_again x next = on_success x next
  received_by try_receive x next = on_success x next
  received_by point x next = []

  abbrev pub ran : System A → ℕ → ℕ → Point → System A
  ran s i k point =
      let r = run_section point i s.state in
      record {
        state = r.state;
        threads = apply_all k r.wakes (update s.threads i (after r.next));
        sent = s.sent ++ sent_by point (s.state.vars i) r.next;
        received = s.received ++ received_by point (r.state.vars i) r.next;
      }

  abbrev pub moved : System A → Threads → System A
  moved s ts = record s { threads = ts }

  -- The variable of thread `i` is at the address `i`; it may be given any value before a call.
  pub data Step (s : System A) : System A → Type 0 where
    call :
        (i : ℕ) (x : A) (point : Point) {u : System A}
        → is_start point ≡ true
        → ((s.threads i ≡ idle) ⊎ ((status : Status) × (s.threads i ≡ returned status)))
        → u ≡ record s {
          threads = update s.threads i (ready point);
          state = record s.state { vars = λ a. if a == i then x else s.state.vars a };
        }
        → Step s u
    lock_fails :
        (i : ℕ) (point : Point) {u : System A}
        → is_start point ≡ true
        → s.threads i ≡ ready point
        → u ≡ moved s (update s.threads i (returned generic_error))
        → Step s u
    enter :
        (i k : ℕ) (point : Point) {u : System A}
        → s.threads i ≡ ready point
        → (let r = run_section point i s.state in
            AllChosen k r.wakes (update s.threads i (after r.next)))
        → u ≡ ran s i k point
        → Step s u
    wake :
        (i k : ℕ) (w : Wake) (ws : List Wake) (status : Status) {u : System A}
        → s.threads i ≡ waking (w ∷ ws) status
        → Chosen k w (update s.threads i (waking ws status))
        → u ≡ moved s (apply k w (update s.threads i (waking ws status)))
        → Step s u
    finish :
        (i : ℕ) (status : Status) {u : System A}
        → s.threads i ≡ waking [] status
        → u ≡ moved s (update s.threads i (returned status))
        → Step s u
    spurious :
        (i : ℕ) (c : Cond) (point : Point) {u : System A}
        → s.threads i ≡ waiting c point
        → u ≡ moved s (update s.threads i (ready point))
        → Step s u

  pub data Reach (s : System A) : System A → Type 0 where
    here : Reach s s
    later : {t u : System A} → Reach s t → Step t u → Reach s u

  -- Threads that have not called anything yet.
  abbrev pub initial : State A → System A
  initial s = record { state = s; threads = λ i. idle; sent = []; received = [] }
