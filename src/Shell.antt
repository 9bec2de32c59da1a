-- ===== src/Shell.antt =====
-- mini-shell-project-FreezeKickerz: src/cmd.c and src/utils.c, over the commands of
-- util/parser/parser.h. The system calls are an argument. `bool` is the enum of parser.h, so that a
-- status keeps its value; statuses are the bits of an `int`.
pub mod Run
mod Chains
mod Isolation
mod Loop
mod Tests
use cmpsc_473_operating_syst.Common.{
  ℕ, ◌%◌, ◌^◌, ◌-◌, Bool, true, false, ◌&&◌, ◌||◌, Option, none, some, List, [], ◌∷◌, ◌++◌, map,
  ◌==◌, if◌then◌else◌,
}

-- Characters as their codes, without the 0 at the end.
abbrev pub Chars : Type 0
Chars = List ℕ

abbrev pub same : Chars → Chars → Bool
same [] [] = true
same (a ∷ s) (b ∷ t) = (a == b) && same s t
same s t = false

-- `strchr(s, c) != NULL`
abbrev pub has_char : ℕ → Chars → Bool
has_char c [] = false
has_char c (a ∷ s) = (a == c) || has_char c s

-- One `word_t` is a part of a word.
pub record Part : Type 0 where
  pub string : Chars
  pub expand : Bool

-- The parts from a `word_t` on, along `next_part`; no part stands for NULL. Along `next_word` the
-- words are a list.
abbrev pub Word : Type 0
Word = List Part

-- `simple_command_t`
pub record Simple : Type 0 where
  pub verb : Word
  pub params : List Word
  pub input : List Word
  pub output : List Word
  pub errors : List Word
  pub io_flags : ℕ

-- `operator_t`, less OP_NONE
pub data Operator : Type 0 where
  sequential parallel conditional_zero conditional_nzero pipe dummy : Operator

-- `command_t`
pub data Command : Type 0 where
  simple : Simple → Command
  compound : Operator → Command → Command → Command

-- The environment variables of a process.
abbrev pub Getenv : Type 0
Getenv = Chars → Option Chars

abbrev pub substring : Getenv → Part → Chars
substring env p =
    if p.expand then elim (env p.string) [ none ↦ [] | some value ↦ value ] else p.string

abbrev pub get_parts : Getenv → Word → Chars
get_parts env [] = []
get_parts env (p ∷ ps) = substring env p ++ get_parts env ps

unfoldable pub get_word : Getenv → Word → Option Chars
get_word env [] = none
get_word env (p ∷ ps) = some (substring env p ++ get_parts env ps)

-- The first word of a list, or NULL.
abbrev pub first_word : List Word → Word
first_word [] = []
first_word (w ∷ ws) = w

-- The words of a list, `none` where `DIE` ends the process.
unfoldable pub get_words : Getenv → List Word → Option (List Chars)
unfolding get_word
get_words env [] = some []
get_words env (w ∷ ws) =
    let rest = get_words env ws in
    elim (get_word env w) [
      | none ↦ none
      | some s ↦ elim rest [ none ↦ none | some args ↦ some (s ∷ args) ]
    ]

unfoldable pub get_argv : Getenv → Simple → Option (List Chars)
unfolding get_words
get_argv env c = get_words env (c.verb ∷ c.params)

-- How a process ends: by `exit` with its low 8 bits, or by a signal.
pub data Exit : Type 0 where
  exited : ℕ → Exit
  signalled : Exit

abbrev pub minus_one : ℕ
minus_one = 2 ^ 32 - 1

-- `SHELL_EXIT`, -100
abbrev pub shell_exit_status : ℕ
shell_exit_status = 2 ^ 32 - 100

abbrev pub exit_code : ℕ → Exit
exit_code n = exited (n % 2 ^ 8)

pub data Target : Type 0 where
  stdout stderr stdout_and_stderr : Target

-- A process `P`, which `fork` copies, and the world `W`, which it shares.
pub record Os (P W : Type 0) : Type 0 where
  pub getenv : P → Getenv
  -- The status, and the process.
  pub setenv : P → Chars → Option Chars → ℕ × P
  pub chdir : P → W → Option Chars → ℕ × P
  -- Whether it succeeds.
  pub fork : W → Bool × W
  -- `pipe`: whether it succeeds, the process with both ends, and the processes of the children, when
  -- they have put their end in place; without a pipe they use the unset numbers of `pipefd`.
  pub pipe_ends : P → W → Bool × P × P × P × W
  -- `close` of the two numbers in `pipefd`, which are unset if `pipe` failed.
  pub close_ends : Bool → P → P
  -- `open`, `dup2` and `close`; the mark is O_APPEND, otherwise O_TRUNC.
  pub read_from : P → W → Chars → P × W
  pub write_to : Target → Bool → P → W → Chars → P × W
  -- `execvp` of these arguments up to the end of the program; `none` if it fails.
  pub execvp : P → List Chars → W → Option (Exit × W)
  -- Messages on the standard error of a process.
  pub prints : P → W → W
  -- Two processes at once, up to the end of both.
  pub together : (W → Exit × W) → (W → Exit × W) → W → Exit × Exit × W
