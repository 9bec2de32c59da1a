-- ===== src/Channel/Threads.antt =====
-- What wakes and new positions leave of two facts on threads: that a broadcast is on its way for
-- all that wait, and that all stand at points of a buffered channel.
use cmpsc_473_operating_syst.Common.{
  ℕ, ◌≡◌, refl, Bool, true, false, ◌||◌, List, [], ◌∷◌, ◌==◌, arith, if_either, ◌≢◌,
}
use cmpsc_473_operating_syst.Channel.{
  Status, notify_select_receivers, notify_select_senders, Cond, not_full, not_empty,
  rendezvous_wait, rendezvous_complete, Wake, broadcasts, Point, send_again, receive_again, Next,
  returns, waits,
}
use cmpsc_473_operating_syst.Channel.System.{
  Thread, ready, waiting, waking, Threads, update, apply, apply_all, same_cond, is_start, after,
}

-- Whether a broadcast of a condition is still to be done.
abbrev pub announces : Cond → List Wake → Bool
announces c [] = false
announces c (broadcasts d ∷ ws) = same_cond d c || announces c ws
announces c (w ∷ ws) = announces c ws

abbrev pub to_wake : Thread → List Wake
to_wake (waking ws status) = ws
to_wake t = []

-- No thread waits but for what thread `i` still has to wake.
abbrev pub Pending : ℕ → Threads → Type 0
Pending i ts =
    (j : ℕ) (c : Cond) (p : Point) → ts j ≡ waiting c p → announces c (to_wake (ts i)) ≡ true

apply-waiting :
    (k : ℕ) (w : Wake) (ts : Threads) (j : ℕ) (c : Cond) (p : Point)
    → apply k w ts j ≡ waiting c p
    → (ts j ≡ waiting c p) × (announces c (w ∷ []) ≡ false)
apply-waiting k w ts j c p e = ground arith

apply-to_wake :
    (k : ℕ) (w : Wake) (ts : Threads) (i : ℕ) → to_wake (apply k w ts i) ≡ to_wake (ts i)
apply-to_wake k w ts i = ground arith

announces-cons :
    (c : Cond) (w : Wake) (ws : List Wake)
    → announces c (w ∷ ws) ≡ true
    → announces c (w ∷ []) ≡ false
    → announces c ws ≡ true
announces-cons c w ws a b = ground arith

module _ (i : ℕ) where
  update-waiting :
      (ts : Threads) (i' : ℕ) (t : Thread) (j : ℕ) (c : Cond) (p : Point)
      → ((c : Cond) (p : Point) → t ≢ waiting c p)
      → update ts i' t j ≡ waiting c p
      → ts j ≡ waiting c p
  update-waiting ts i' t j c p on e = ground (arith, on c p)

  update-announces :
      (ts : Threads) (i' : ℕ) (t : Thread) (c : Cond)
      → announces c (to_wake (ts i)) ≡ true
      → to_wake (ts i') ≡ []
      → announces c (to_wake (update ts i' t i)) ≡ true
  update-announces ts i' t c due quiet = ground arith

  pub update-Pending :
      {ts : Threads} (i' : ℕ) (t : Thread)
      → Pending i ts
      → to_wake (ts i') ≡ []
      → ((c : Cond) (p : Point) → t ≢ waiting c p)
      → Pending i (update ts i' t)
  update-Pending {ts} i' t h quiet on j c p e =
      let old = update-waiting ts i' t j c p on e in update-announces ts i' t c (h j c p old) quiet

  apply-Pending : {ts : Threads} (k : ℕ) (w : Wake) → Pending i ts → Pending i (apply k w ts)
  apply-Pending {ts} k w h j c p e =
      rw (apply-to_wake k w ts i) (h j c p (apply-waiting k w ts j c p e).0)

  pub apply_all-Pending :
      (k : ℕ) (ws : List Wake) {ts : Threads} → Pending i ts → Pending i (apply_all k ws ts)
  apply_all-Pending k [] h = h
  apply_all-Pending k (w ∷ ws) h = apply_all-Pending k ws (apply-Pending k w h)

  -- One more wake done.
  pub wake-Pending :
      {ts : Threads} (i' k : ℕ) (w : Wake) (ws : List Wake) (status : Status)
      → Pending i ts
      → ts i' ≡ waking (w ∷ ws) status
      → Pending i (apply k w (update ts i' (waking ws status)))
  wake-Pending {ts} i' k w ws status h at j c p e =
      let ts' : Threads = update ts i' (waking ws status) in
      let (e', gone) = apply-waiting k w ts' j c p e in
      let old : ts j ≡ waiting c p = ground arith in
      let due = h j c p old in rw (apply-to_wake k w ts' i) (ground (arith, announces-cons c w ws))

-- The points that threads come to at a buffered channel.
abbrev pub is_plain : Point → Bool
is_plain send_again = true
is_plain receive_again = true
is_plain p = is_start p

abbrev pub has_plain_point : Thread → Bool
has_plain_point (ready p) = is_plain p
has_plain_point (waiting c p) = is_plain p
has_plain_point t = true

-- How a section may end: it waits at a point of a buffered channel, and only at an open one.
abbrev pub Waits : Bool → Next → Type 0
Waits closed (returns ws status) = Unit {0}
Waits closed (waits c p) = (closed ≡ false) × (is_plain p ≡ true)

pub after-is_plain : (closed : Bool) (n : Next) → Waits closed n → has_plain_point (after n) ≡ true
after-is_plain closed (returns ws status) h = refl
after-is_plain closed (waits c p) (open_yet, plain) = plain

abbrev pub AllPlain : Threads → Type 0
AllPlain ts = (j : ℕ) → has_plain_point (ts j) ≡ true

pub update-AllPlain :
    (ts : Threads) (i : ℕ) (t : Thread)
    → AllPlain ts
    → has_plain_point t ≡ true
    → AllPlain (update ts i t)
update-AllPlain ts i t h e j = if_either (λ u. has_plain_point u ≡ true) (j == i) e (h j)

pub apply-AllPlain : (ts : Threads) (k : ℕ) (w : Wake) → AllPlain ts → AllPlain (apply k w ts)
apply-AllPlain ts k w h j = ground (arith, h j)

pub apply_all-AllPlain :
    (ts : Threads) (k : ℕ) (ws : List Wake) → AllPlain ts → AllPlain (apply_all k ws ts)
apply_all-AllPlain ts k [] h = h
apply_all-AllPlain ts k (w ∷ ws) h =
    apply_all-AllPlain (apply k w ts) k ws (apply-AllPlain ts k w h)

pub start-is_plain : (p : Point) → is_start p ≡ true → is_plain p ≡ true
start-is_plain p e = ground arith

pub plain_at :
    (ts : Threads) (i : ℕ) {t : Thread} → AllPlain ts → ts i ≡ t → has_plain_point t ≡ true
plain_at ts i h e = rw (← e) (h i)

pub after-returns : (n : Next) → Waits true n → (c : Cond) (p : Point) → after n ≢ waiting c p
after-returns n h c p e = ground arith

pub returns-Waits :
    (n : Next) → Waits true n → (ws : List Wake) × (status : Status) × (n ≡ returns ws status)
returns-Waits (returns ws status) h = (ws, status, refl)
returns-Waits (waits c p) (e, h) = absurd (ground (arith, e))

-- The wakes of `channel_close`.
abbrev pub closing : List Wake
closing =
    notify_select_receivers
    ∷ notify_select_senders
    ∷ broadcasts not_empty
    ∷ broadcasts not_full
    ∷ broadcasts rendezvous_wait
    ∷ broadcasts rendezvous_complete
    ∷ []

pub closing-announces : (c : Cond) → announces c closing ≡ true
closing-announces not_full = refl
closing-announces not_empty = refl
closing-announces rendezvous_wait = refl
closing-announces rendezvous_complete = refl

pub announces-nil : (c : Cond) (ws : List Wake) → ws ≡ [] → announces c ws ≢ true
announces-nil c ws e h = ground arith
