-- ===== src/Channel/Rendezvous.antt =====
-- unbuffered_sync: two threads meet at a channel without a buffer.
use cmpsc_473_operating_syst.Common.{ℕ, ◌≡◌, refl, ◌≢◌, ◌⊎◌, inl, inr, some, [], ◌∷◌, arith}
use cmpsc_473_operating_syst.Channel.{
  success, Op, sending, receiving, signals, broadcasts, rendezvous_wait, rendezvous_complete,
  sync_done, sync_again, returns, waits, State, exchange, unbuffered_sync, first_party, line_up,
  leave_line, second_party, end_rendezvous,
}

abbrev pub other : Op → Op
other sending = receiving
other receiving = sending

-- The variable that a rendezvous writes, of an operation with its variable at `p` and its partner
-- with its own at `p'`; and the one that it reads.
abbrev pub target : Op → ℕ → ℕ → ℕ
target sending p p' = p'
target receiving p p' = p

abbrev pub origin : Op → ℕ → ℕ → ℕ
origin sending p p' = p
origin receiving p p' = p'

module _ {A : Type 0} where
  -- From stage 0, with no one else in between: an operation waits, its partner exchanges the value
  -- and wakes it, both return SUCCESS, and the first of them frees the channel for the next pair
  -- and wakes those in line. The receiver has the sender's value, and no other variable changes.
  pub rendezvous :
      (op : Op) (p p' : ℕ) (s : State A)
      → s.chan.unbuf_stage ≡ 0
      → let first = unbuffered_sync op p s in
        let second = unbuffered_sync (other op) p' first.state in
        let last = end_rendezvous second.state in
        (first.next ≡ waits rendezvous_complete sync_done)
        × (second.wakes ≡ signals rendezvous_complete ∷ [])
        × (second.next ≡ returns [] success)
        × (last.wakes ≡ broadcasts rendezvous_wait ∷ [])
        × (last.next ≡ returns [] success)
        × (last.state.chan.unbuf_stage ≡ 0)
        × (last.state.vars (target op p p') ≡ s.vars (origin op p p'))
        × ((a : ℕ) → a ≢ target op p p' → last.state.vars a ≡ s.vars a)
  unfolding unbuffered_sync first_party second_party exchange end_rendezvous
  rendezvous sending p p' s free =
      rw free (refl, refl, refl, refl, refl, refl, ground arith, λ a h. ground arith)
  rendezvous receiving p p' s free =
      rw free (refl, refl, refl, refl, refl, refl, ground arith, λ a h. ground arith)

  -- Whoever comes to a pair that has met already, or finds another thread with the same operation,
  -- goes in line, is counted there, and changes nothing else; once it leaves the line the channel
  -- is as it was.
  pub in_line :
      (op : Op) (p : ℕ) (s : State A)
      → (s.chan.unbuf_stage ≡ 2) ⊎ ((s.chan.unbuf_stage ≡ 1) × (s.chan.active_unbuf_op ≡ some op))
      → let r = unbuffered_sync op p s in
        (r.next ≡ waits rendezvous_wait (sync_again op))
        × (r.wakes ≡ [])
        × (leave_line op r.state ≡ s)
  unfolding unbuffered_sync line_up leave_line
  in_line sending p s (inl e) = rw e (refl, refl, ground arith)
  in_line receiving p s (inl e) = rw e (refl, refl, ground arith)
  in_line sending p s (inr (e, e')) = rw (e, e') (refl, refl, ground arith)
  in_line receiving p s (inr (e, e2)) = rw (e, e2) (refl, refl, ground arith)
