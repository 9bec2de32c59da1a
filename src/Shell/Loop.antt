-- ===== src/Shell/Loop.antt =====
-- main.c: reading lines and running them. The lines come in the chunks that `fgets` gives, and
-- `parse_line`, which is generated from a grammar, is an argument.
use cmpsc_473_operating_syst.Common.{
  ℕ, zero, suc, Bool, true, false, Option, none, some, List, [], ◌∷◌, ◌++◌, ◌==◌, if◌then◌else◌,
}
use cmpsc_473_operating_syst.Shell.{Chars, Command, Exit, Os, exit_code, shell_exit_status}
use cmpsc_473_operating_syst.Shell.Run.{returned, exits, parse_command}

-- A chunk without "\n" or "\r\n" at its end, and whether it had one.
abbrev pub cut : Chars → Chars × Bool
cut [] = ([], false)
cut (c ∷ []) = if c == 10 then ([], true) else (c ∷ [], false)
cut (c ∷ d ∷ []) = if d == 10 then ((if c == 13 then [] else c ∷ []), true) else (c ∷ d ∷ [], false)
cut (c ∷ d ∷ e ∷ s) = let (t, ended) = cut (d ∷ e ∷ s) in (c ∷ t, ended)

abbrev pub so_far : Option Chars → Chars
so_far none = []
so_far (some line) = line

-- The line, NULL at the end of the input, and the chunks behind it.
unfoldable pub read_line : Option Chars → List Chars → Option Chars × List Chars
read_line line [] = (line, [])
read_line line (chunk ∷ chunks) =
    let (text, ended) = cut chunk in
    let longer = so_far line ++ text in
    let rest = read_line (some longer) chunks in if ended then (some longer, chunks) else rest

module _ {P W : Type 0} (os : Os P W) (parse_line : Chars → Option Command) where
  -- The `for`, for so many lines; `none` where it goes on behind them.
  unfoldable pub start_shell : ℕ → List Chars → P → W → Option (Exit × W)
  unfolding read_line parse_command
  start_shell zero chunks p w = none
  start_shell (suc fuel) chunks p w =
      let (line, rest) = read_line none chunks in
      elim line [
        | none ↦ some (exit_code 0, w)
        | some text ↦ elim (parse_line text) [
          | none ↦ start_shell fuel rest p w
          | some c ↦ elim (parse_command os c p w) [
            | exits e w' ↦ some (e, w')
            | returned status p' w' ↦
                if status == shell_exit_status
                then some (exit_code 0, w')
                else start_shell fuel rest p' w'
          ]
        ]
      ]
