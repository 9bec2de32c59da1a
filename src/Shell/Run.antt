-- ===== src/Shell/Run.antt =====
-- cmd.c: running a command tree.
use cmpsc_473_operating_syst.Common.{
  ℕ, Bool, false, ◌||◌, not, Option, none, some, List, [], ◌∷◌, ◌==◌, if◌then◌else◌,
}
use cmpsc_473_operating_syst.Shell.{
  Chars, same, has_char, Word, Simple, sequential, parallel, conditional_zero, conditional_nzero,
  pipe, dummy, Command, simple, compound, get_word, first_word, get_argv, Exit, exited, signalled,
  minus_one, shell_exit_status, exit_code, Target, stdout, stderr, stdout_and_stderr, Os,
}

-- What running a command comes to: a status, with the process and the world left; the end of the
-- process; or the read of a NULL pointer.
pub data Run (P W : Type 0) : Type 0 where
  returned : ℕ → P → W → Run P W
  exits : Exit → W → Run P W

-- "cd", "exit" and "quit".
abbrev pub cd_word : Chars
cd_word = 99 ∷ 100 ∷ []

abbrev pub exit_word : Chars
exit_word = 101 ∷ 120 ∷ 105 ∷ 116 ∷ []

abbrev pub quit_word : Chars
quit_word = 113 ∷ 117 ∷ 105 ∷ 116 ∷ []

abbrev pub has_equals : Option Chars → Bool
has_equals none = false
has_equals (some word) = has_char 61 word

abbrev pub same_file : Option Chars → Option Chars → Bool
same_file (some a) (some b) = same a b
same_file a b = false

-- WEXITSTATUS, or another status if the child was killed.
abbrev pub status_or : ℕ → Exit → ℕ
status_or other (exited n) = n
status_or other signalled = other

module _ {P W : Type 0} where
  -- What the process that waits, or `exit`, sees of a child.
  abbrev pub child_end : Run P W → Exit × W
  child_end (returned status p w) = (exit_code status, w)
  child_end (exits e w) = (e, w)

  abbrev pub and_then : Run P W → (ℕ → P → W → Run P W) → Run P W
  and_then (returned status p w) f = f status p w
  and_then (exits e w) f = exits e w

module _ {P W : Type 0} (os : Os P W) where
  open os use {
    getenv, setenv, chdir, fork, pipe_ends, close_ends, read_from, write_to, execvp, prints,
    together,
  }

  abbrev pub redirect_input : Option Chars → P × W → P × W
  redirect_input none (p, w) = (p, w)
  redirect_input (some infile) (p, w) = read_from p w infile

  -- One of the redirections of the output.
  abbrev pub redirect_output : Target → Bool → Option Chars → P × W → P × W
  redirect_output target append none (p, w) = (p, w)
  redirect_output target append (some file) (p, w) = write_to target append p w file

  unfoldable pub redirect : Simple → P → W → P × W
  unfolding get_word
  redirect c p w =
      let env = getenv p in
      let outfile = get_word env (first_word c.output) in
      let errfile = get_word env (first_word c.errors) in
      let now = redirect_input (get_word env (first_word c.input)) (p, w) in
      if same_file outfile errfile
      then redirect_output stdout_and_stderr (c.io_flags == 1) outfile now
      else redirect_output stderr (c.io_flags == 2) errfile
          (redirect_output stdout (c.io_flags == 1) outfile now)

  -- The child of `parse_simple`: the program, or what follows a failed `execvp` or allocation.
  unfoldable pub run_program : Simple → P → P → W → Exit × W
  unfolding get_argv
  run_program c parent p w = elim (get_argv (getenv parent) c) [
    | none ↦ (exit_code 1, prints p w)
    | some argv ↦ elim (execvp p argv w) [ none ↦ (exit_code 1, prints p w) | some r ↦ r ]
  ]

  unfoldable pub parse_simple : Simple → P → W → Run P W
  unfolding redirect run_program
  parse_simple c p w =
      let (ok, w1) = fork w in
      let (p2, w2) = redirect c p w1 in
      let (e, w3) = run_program c p p2 w2 in
      if ok then returned (status_or minus_one e) p w3 else returned minus_one p (prints p w1)

  unfoldable pub shell_cd : List Word → P → W → ℕ × P
  unfolding get_word
  shell_cd dir p w = chdir p w (get_word (getenv p) (first_word dir))

  -- `cd`: a child tries it, with the redirections, and reports; then the shell does it.
  unfoldable pub run_cd : Simple → P → W → Run P W
  unfolding shell_cd redirect
  run_cd c p w =
      let (ok, w1) = fork w in
      let (p2, w2) = redirect c p w1 in
      let (rc, p3) = shell_cd c.params p2 w2 in
      let w3 = if rc == minus_one then prints p3 w2 else w2 in
      let (status, p4) = shell_cd c.params p w3 in
      if ok then returned status p4 w3 else returned minus_one p (prints p w1)

  -- The parts behind the name and the `=`; without them the shell reads through NULL.
  unfoldable pub assign : Word → P → W → Run P W
  unfolding get_word
  assign (name ∷ equals ∷ value) p w =
      let (status, p') = setenv p name.string (get_word (getenv p) value) in returned status p' w
  assign verb p w = exits signalled w

  -- By the verb of a command: an assignment, a command of the shell, or a program.
  unfoldable pub run_verb : Word → Simple → P → W → Run P W
  unfolding get_word parse_simple run_cd assign
  run_verb [] c p w = exits signalled w
  run_verb (first ∷ rest) c p w =
      if has_equals (get_word (getenv p) (first ∷ rest))
      then assign (first ∷ rest) p w
      else if same first.string cd_word
      then run_cd c p w
      else if same first.string exit_word || same first.string quit_word
      then exits (exit_code shell_exit_status) w
      else parse_simple c p w

  -- The part of `parse_command` for OP_NONE.
  unfoldable pub run_simple : Simple → P → W → Run P W
  unfolding run_verb
  run_simple c p w = run_verb c.verb c p w

  -- Two children at once, after the two forks; the shell goes on as `done`, or, if a fork fails, as it
  -- is.
  abbrev pub run_children : (P → W → Run P W) → (P → W → Run P W) → P → P → P → P → W → Run P W
  run_children first second p done p1 p2 w =
      let (ok1, w1) = fork w in
      let (ok2, w2) = fork w1 in
      let alone = child_end (first p1 w2) in
      let (e1, e2, w3) = together (λ v. child_end (first p1 v)) (λ v. child_end (second p2 v)) w2 in
      if not ok1
      then returned 0 p (prints p w1)
      else if not ok2
      then returned 0 p (prints p alone.1)
      else returned (status_or 0 e2) done w3

  unfoldable pub run_in_parallel : (P → W → Run P W) → (P → W → Run P W) → P → W → Run P W
  run_in_parallel first second p w = run_children first second p p p p w

  unfoldable pub run_on_pipe : (P → W → Run P W) → (P → W → Run P W) → P → W → Run P W
  run_on_pipe first second p w =
      let (ok, open_ends, p1, p2, w1) = pipe_ends p w in
      run_children first second open_ends (close_ends ok open_ends) p1 p2
        (if ok then w1 else prints open_ends w1)

  unfoldable pub parse_command : Command → P → W → Run P W
  unfolding run_simple run_in_parallel run_on_pipe
  parse_command (simple c) p w = run_simple c p w
  parse_command (compound sequential a b) p w =
      and_then (parse_command a p w) (λ status p' w'. parse_command b p' w')
  parse_command (compound parallel a b) p w =
      run_in_parallel (parse_command a) (parse_command b) p w
  parse_command (compound conditional_nzero a b) p w =
      and_then (parse_command a p w)
        (λ status p' w'. if status == 0 then returned status p' w' else parse_command b p' w')
  parse_command (compound conditional_zero a b) p w =
      and_then (parse_command a p w)
        (λ status p' w'. if status == 0 then parse_command b p' w' else returned status p' w')
  parse_command (compound pipe a b) p w = run_on_pipe (parse_command a) (parse_command b) p w
  parse_command (compound dummy a b) p w = returned shell_exit_status p w
