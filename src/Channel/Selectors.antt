-- ===== src/Channel/Selectors.antt =====
-- init_select and cleanup_select: the semaphore of a select in the lists of its channels.
use cmpsc_473_operating_syst.Common.{
  ℕ, ◌≡◌, refl, ◌∙◌, ap, Bool, true, false, List, [], ◌∷◌, ◌++◌, ◌==◌, ◌||◌, arith,
}
use cmpsc_473_operating_syst.Channel.{Op, sending, receiving, Channel}
use cmpsc_473_operating_syst.Channel.Select.{
  Entry, World, remove_first, change, enlist, delist, init_select, cleanup_select,
  add_select_sender, add_select_receiver, remove_select_sender, remove_select_receiver,
}

abbrev pub has : ℕ → List ℕ → Bool
has sem [] = false
has sem (x ∷ xs) = (x == sem) || has sem xs

remove_first-snoc :
    (sem : ℕ) (xs : List ℕ) → has sem xs ≡ false → remove_first sem (xs ++ sem ∷ []) ≡ xs
remove_first-snoc sem [] e = ground arith
remove_first-snoc sem (x ∷ xs) e = ground (arith, remove_first-snoc sem xs)

remove_first-append :
    (sem : ℕ) (xs ys : List ℕ)
    → has sem xs ≡ true
    → remove_first sem (xs ++ ys) ≡ remove_first sem xs ++ ys
remove_first-append sem [] ys e = absurd (ground (arith, e))
remove_first-append sem (x ∷ xs) ys e = ground (arith, remove_first-append sem xs ys)

has-append : (sem : ℕ) (xs ys : List ℕ) → has sem xs ≡ true → has sem (xs ++ ys) ≡ true
has-append sem [] ys e = absurd (ground (arith, e))
has-append sem (x ∷ xs) ys e = ground (arith, has-append sem xs ys)

has-snoc : (sem : ℕ) (xs : List ℕ) → has sem (xs ++ sem ∷ []) ≡ true
has-snoc sem [] = ground arith
has-snoc sem (x ∷ xs) = ground (arith, has-snoc sem xs)

module _ {A : Type 0} where
  -- The list in which `init_select` puts a semaphore for an entry.
  abbrev pub selectors : Op → Channel A → List ℕ
  selectors sending c = c.send_selectors
  selectors receiving c = c.recv_selectors

  abbrev add : ℕ → Op → Channel A → Channel A
  add sem sending = add_select_sender sem
  add sem receiving = add_select_receiver sem

  abbrev drop : ℕ → Op → Channel A → Channel A
  drop sem sending = remove_select_sender sem
  drop sem receiving = remove_select_receiver sem

  drop-add :
      (sem : ℕ) (d : Op) (c : Channel A)
      → has sem (selectors d c) ≡ false
      → drop sem d (add sem d c) ≡ c
  unfolding add_select_sender add_select_receiver remove_select_sender remove_select_receiver
  drop-add sem sending c e = rw (remove_first-snoc sem c.send_selectors e) refl
  drop-add sem receiving c e = rw (remove_first-snoc sem c.recv_selectors e) refl

  drop-add_comm :
      (sem : ℕ) (d d' : Op) (c : Channel A)
      → has sem (selectors d c) ≡ true
      → drop sem d (add sem d' c) ≡ add sem d' (drop sem d c)
  unfolding add_select_sender add_select_receiver remove_select_sender remove_select_receiver
  drop-add_comm sem sending sending c e =
      rw (remove_first-append sem c.send_selectors (sem ∷ []) e) refl
  drop-add_comm sem receiving receiving c e =
      rw (remove_first-append sem c.recv_selectors (sem ∷ []) e) refl
  drop-add_comm sem sending receiving c e = refl
  drop-add_comm sem receiving sending c e = refl

  selectors-add :
      (sem : ℕ) (d d' : Op) (c : Channel A)
      → has sem (selectors d c) ≡ true
      → has sem (selectors d (add sem d' c)) ≡ true
  unfolding add_select_sender add_select_receiver
  selectors-add sem sending sending c e = has-append sem c.send_selectors (sem ∷ []) e
  selectors-add sem receiving receiving c e = has-append sem c.recv_selectors (sem ∷ []) e
  selectors-add sem sending receiving c e = e
  selectors-add sem receiving sending c e = e

  selectors-add_self :
      (sem : ℕ) (d : Op) (c : Channel A) → has sem (selectors d (add sem d c)) ≡ true
  unfolding add_select_sender add_select_receiver
  selectors-add_self sem sending c = has-snoc sem c.send_selectors
  selectors-add_self sem receiving c = has-snoc sem c.recv_selectors

  enlist-add :
      (sem : ℕ) (e : Entry) (w : World A) → enlist sem e w ≡ change w e.channel (add sem e.dir)
  unfolding enlist
  enlist-add sem e w = elim e.dir [ sending ↦ refl | receiving ↦ refl ]

  abbrev Registered : ℕ → Entry → World A → Type 0
  Registered sem e w = has sem (selectors e.dir (w.chans e.channel)) ≡ true

  delist-drop :
      (sem : ℕ) (e : Entry) (w : World A) → delist sem e w ≡ change w e.channel (drop sem e.dir)
  unfolding delist
  delist-drop sem e w = elim e.dir [ sending ↦ refl | receiving ↦ refl ]

  change-ext :
      (w : World A) (f g : ℕ → Channel A)
      → ((j : ℕ) → f j ≡ g j)
      → record w { chans = f } ≡ record w { chans = g }
  change-ext w f g h i = record w { chans = λ j. h j i }

  delist-enlist :
      (sem : ℕ) (e : Entry) (w : World A)
      → has sem (selectors e.dir (w.chans e.channel)) ≡ false
      → delist sem e (enlist sem e w) ≡ w
  delist-enlist sem e w out =
      rw (enlist-add sem e w, delist-drop sem e (change w e.channel (add sem e.dir)))
        (change-ext w _ _ (λ j. ground (arith, drop-add sem e.dir (w.chans j))))

  delist-enlist_comm :
      (sem : ℕ) (e e' : Entry) (w : World A)
      → Registered sem e w
      → delist sem e (enlist sem e' w) ≡ enlist sem e' (delist sem e w)
  delist-enlist_comm sem e e' w here =
      rw
        (
          enlist-add sem e' w,
          delist-drop sem e w,
          enlist-add sem e' (change w e.channel (drop sem e.dir)),
          delist-drop sem e (change w e'.channel (add sem e'.dir)),
        )
        (change-ext w _ _ (λ j. ground (arith, drop-add_comm sem e.dir e'.dir (w.chans j))))

  enlist-Registered :
      (sem : ℕ) (e e' : Entry) (w : World A)
      → Registered sem e w
      → Registered sem e (enlist sem e' w)
  enlist-Registered sem e e' w here =
      rw (enlist-add sem e' w) (ground (arith, selectors-add sem e.dir e'.dir (w.chans e.channel)))

  enlist-Registered_self : (sem : ℕ) (e : Entry) (w : World A) → Registered sem e (enlist sem e w)
  enlist-Registered_self sem e w =
      rw (enlist-add sem e w) (ground (arith, selectors-add_self sem e.dir (w.chans e.channel)))

  delist-init_select :
      (sem : ℕ) (e : Entry) (es : List Entry) (w : World A)
      → Registered sem e w
      → delist sem e (init_select es sem w) ≡ init_select es sem (delist sem e w)
  unfolding init_select
  delist-init_select sem e [] w here = refl
  delist-init_select sem e (e' ∷ es) w here =
      delist-init_select sem e es (enlist sem e' w) (enlist-Registered sem e e' w here)
      ∙ ap (init_select es sem) (delist-enlist_comm sem e e' w here)

  -- What `init_select` adds to the lists of the channels `cleanup_select` takes out again, whatever
  -- the entries, with channels that stand in several of them: every channel is left as it was, if the
  -- semaphore, a new one, was in none of these lists before.
  pub cleanup_select-init_select :
      (sem : ℕ) (es : List Entry) (w : World A)
      → ((k : ℕ) (d : Op) → has sem (selectors d (w.chans k)) ≡ false)
      → cleanup_select es sem (init_select es sem w) ≡ w
  unfolding init_select cleanup_select
  cleanup_select-init_select sem [] w new = refl
  cleanup_select-init_select sem (e ∷ es) w new =
      rw
        (
          delist-init_select sem e es (enlist sem e w) (enlist-Registered_self sem e w),
          delist-enlist sem e w (new e.channel e.dir),
        )
        (cleanup_select-init_select sem es w new)
