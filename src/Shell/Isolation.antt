-- ===== src/Shell/Isolation.antt =====
-- Which commands leave the directory and the environment of the shell as they were.
use cmpsc_473_operating_syst.Common.{
  ◌||◌, ℕ, ◌≡◌, refl, sym, ◌∙◌, Bool, true, false, [], ◌∷◌, ◌==◌, if◌then◌else◌, arith,
}
use mathlib.Core.Path.{subst}
use cmpsc_473_operating_syst.Shell.{
  Getenv, Word, Simple, sequential, parallel, conditional_zero, conditional_nzero, pipe, dummy,
  Command, simple, compound, get_word, Os, same,
}
use cmpsc_473_operating_syst.Shell.Run.{
  Run, returned, exits, cd_word, exit_word, quit_word, and_then, has_equals, parse_simple, run_verb,
  run_simple, run_children, run_in_parallel, run_on_pipe, parse_command,
}

-- What `view` takes in of a process is its environment at least, and neither `pipe` nor `close` changes
-- it.
pub record KeptByPipes {P W V : Type 0} (os : Os P W) (view : P → V) : Type 0 where
  pub pipe_keeps : (p : P) (w : W) → view (os.pipe_ends p w).1 ≡ view p
  pub close_keeps : (ok : Bool) (p : P) → view (os.close_ends ok p) ≡ view p
  pub environment : (p q : P) → view p ≡ view q → os.getenv p ≡ os.getenv q

module _ {P W V : Type 0} (view : P → V) where
  -- The shell goes on, if it goes on, in a process with the view of `p`.
  abbrev pub Keeps : P → Run P W → Type 0
  Keeps p (returned status p' w) = view p' ≡ view p
  Keeps p (exits e w) = Unit {0}

  Keeps-trans : (p q : P) (r : Run P W) → view q ≡ view p → Keeps q r → Keeps p r
  Keeps-trans p q (returned status p' w) e h = h ∙ e
  Keeps-trans p q (exits e' w) e h = tt

  if-Keeps :
      (p : P) (b : Bool) (x y : Run P W) → Keeps p x → Keeps p y → Keeps p (if b then x else y)
  if-Keeps p true x y hx hy = hx
  if-Keeps p false x y hx hy = hy

  and_then-Keeps :
      (p : P) (r : Run P W) (f : ℕ → P → W → Run P W)
      → Keeps p r
      → ((status : ℕ) (q : P) (w : W) → view q ≡ view p → Keeps q (f status q w))
      → Keeps p (and_then r f)
  and_then-Keeps p (returned status p' w) f e h =
      Keeps-trans p p' (f status p' w) e (h status p' w e)
  and_then-Keeps p (exits e w) f k h = tt

-- A verb that is neither `cd` nor an assignment, in an environment.
abbrev pub Ordinary : Getenv → Word → Type 0
Ordinary env [] = Unit {0}
Ordinary env (first ∷ rest) =
    (has_equals (get_word env (first ∷ rest)) ≡ false) × (same first.string cd_word ≡ false)

-- Every `cd` and assignment of a command stands below a `|` or a `&`.
abbrev pub Contained : Getenv → Command → Type 0
Contained env (simple c) = Ordinary env c.verb
Contained env (compound parallel a b) = Unit {0}
Contained env (compound pipe a b) = Unit {0}
Contained env (compound dummy a b) = Unit {0}
Contained env (compound sequential a b) = Contained env a × Contained env b
Contained env (compound conditional_zero a b) = Contained env a × Contained env b
Contained env (compound conditional_nzero a b) = Contained env a × Contained env b

module _ {P W V : Type 0} (os : Os P W) (view : P → V) where
  parse_simple-Keeps : (c : Simple) (p : P) (w : W) → Keeps view p (parse_simple os c p w)
  unfolding parse_simple
  parse_simple-Keeps c p w = ground arith

  run_children-Keeps :
      (f g : P → W → Run P W) (p open_ends done p1 p2 : P) (w : W)
      → view open_ends ≡ view p
      → view done ≡ view p
      → Keeps view p (run_children os f g open_ends done p1 p2 w)
  run_children-Keeps f g p open_ends done p1 p2 w e e' = ground arith

  run_verb-Keeps :
      (verb : Word) (c : Simple) (p : P) (w : W)
      → Ordinary (os.getenv p) verb
      → Keeps view p (run_verb os verb c p w)
  unfolding run_verb
  run_verb-Keeps [] c p w h = tt
  run_verb-Keeps (first ∷ rest) c p w (no_equals, no_cd) =
      rw (no_equals, no_cd)
        (if-Keeps view p (same first.string exit_word || same first.string quit_word) (exits _ _)
          (parse_simple os c p w) tt (parse_simple-Keeps c p w))

  moved :
      (b : Command) (q p : P)
      → KeptByPipes os view
      → view q ≡ view p
      → Contained (os.getenv p) b
      → Contained (os.getenv q) b
  moved b q p k e h = subst (λ env. Contained env b) (sym (k.environment q p e)) h

  -- Let `view` take in the environment of a process, and what else `pipe` and `close` leave alone, as
  -- the directory. Whatever a command does, with `cd` and assignments only below `|` and `&`, and
  -- whether forks and pipes succeed or fail: the shell goes on, if it goes on, with the view that it
  -- had.
  pub parse_command-Keeps :
      (c : Command) (p : P) (w : W)
      → KeptByPipes os view
      → Contained (os.getenv p) c
      → Keeps view p (parse_command os c p w)
  unfolding parse_command run_in_parallel run_on_pipe run_simple
  parse_command-Keeps (simple c) p w k h = run_verb-Keeps c.verb c p w h
  parse_command-Keeps (compound sequential a b) p w k (ha, hb) =
      and_then-Keeps view p (parse_command os a p w) _ (parse_command-Keeps a p w k ha)
        (λ status q w' e. parse_command-Keeps b q w' k (moved b q p k e hb))
  parse_command-Keeps (compound conditional_zero a b) p w k (ha, hb) =
      and_then-Keeps view p (parse_command os a p w) _ (parse_command-Keeps a p w k ha)
        (λ status q w' e.
          if-Keeps view q (status == 0) (parse_command os b q w') (returned status q w')
            (parse_command-Keeps b q w' k (moved b q p k e hb)) refl)
  parse_command-Keeps (compound conditional_nzero a b) p w k (ha, hb) =
      and_then-Keeps view p (parse_command os a p w) _ (parse_command-Keeps a p w k ha)
        (λ status q w' e.
          if-Keeps view q (status == 0) (returned status q w') (parse_command os b q w') refl
            (parse_command-Keeps b q w' k (moved b q p k e hb)))
  parse_command-Keeps (compound parallel a b) p w k h =
      run_children-Keeps (parse_command os a) (parse_command os b) p p p p p w refl refl
  parse_command-Keeps (compound pipe a b) p w k h =
      let e = k.pipe_keeps p w in
      run_children-Keeps (parse_command os a) (parse_command os b) p _ _ _ _ _ e
        (k.close_keeps _ _ ∙ e)
  parse_command-Keeps (compound dummy a b) p w k h = refl
