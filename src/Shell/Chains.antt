-- ===== src/Shell/Chains.antt =====
-- Lists of commands joined by && and ||, and which processes a command leaves as they were.
use cmpsc_473_operating_syst.Common.{
  ℕ, ◌≡◌, refl, sym, ◌∙◌, Bool, true, false, List, [], ◌∷◌, ◌==◌, if◌then◌else◌, arith,
}
use cmpsc_473_operating_syst.Shell.{
  Operator, conditional_zero, conditional_nzero, Command, compound, Os,
}
use cmpsc_473_operating_syst.Shell.Run.{Run, returned, exits, and_then, parse_command}

-- The operators of such a list: `&&` and `||`.
pub data Junction : Type 0 where
  if_zero if_nonzero : Junction

abbrev pub operator : Junction → Operator
operator if_zero = conditional_zero
operator if_nonzero = conditional_nzero

abbrev pub runs_after : Junction → ℕ → Bool
runs_after if_zero status = status == 0
runs_after if_nonzero status = if status == 0 then false else true

-- The tree of a list, which the parser nests to the left.
abbrev pub tree : Command → List (Junction × Command) → Command
tree c [] = c
tree c ((j, d) ∷ rest) = tree (compound (operator j) c d) rest

module _ {P W : Type 0} where
  and_then_assoc :
      (r : Run P W) (f g : ℕ → P → W → Run P W)
      → and_then (and_then r f) g ≡ and_then r (λ status p w. and_then (f status p w) g)
  and_then_assoc (returned status p w) f g = refl
  and_then_assoc (exits e w) f g = refl

  and_then_same :
      (r : Run P W) (f g : ℕ → P → W → Run P W)
      → ((status : ℕ) (p : P) (w : W) → f status p w ≡ g status p w)
      → and_then r f ≡ and_then r g
  and_then_same (returned status p w) f g h = h status p w
  and_then_same (exits e w) f g h = refl

  and_then_returned : (r : Run P W) → and_then r returned ≡ r
  and_then_returned (returned status p w) = refl
  and_then_returned (exits e w) = refl

module _ {P W : Type 0} (os : Os P W) where
  -- From left to right: the status of the last command that ran decides on the next one.
  abbrev pub walk : List (Junction × Command) → ℕ → P → W → Run P W
  walk [] status p w = returned status p w
  walk ((j, d) ∷ rest) status p w =
      and_then (if runs_after j status then parse_command os d p w else returned status p w)
        (walk rest)

  parse_command-junction :
      (j : Junction) (c d : Command) (p : P) (w : W)
      → parse_command os (compound (operator j) c d) p w
        ≡ and_then (parse_command os c p w) (λ status p' w'.
          if runs_after j status then parse_command os d p' w' else returned status p' w')
  unfolding parse_command
  parse_command-junction if_zero c d p w = refl
  parse_command-junction if_nonzero c d p w =
      and_then_same (parse_command os c p w) _ _ (λ status p' w'. ground arith)

  -- The tree of a list of commands joined by && and ||, in any mixture, runs as POSIX has it: from
  -- left to right with both operators of one rank, each command if the status of the last one that
  -- ran is zero, or is not, as its operator wants; a skipped command changes nothing, and the end of
  -- the shell ends the list.
  pub parse_command-tree :
      (rest : List (Junction × Command)) (c : Command) (p : P) (w : W)
      → parse_command os (tree c rest) p w ≡ and_then (parse_command os c p w) (walk rest)
  parse_command-tree [] c p w = sym (and_then_returned _)
  parse_command-tree ((j, d) ∷ rest) c p w =
      parse_command-tree rest (compound (operator j) c d) p w
      ∙ rw (parse_command-junction j c d p w)
          (and_then_assoc (parse_command os c p w) _ (walk rest))
