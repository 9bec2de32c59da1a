-- ===== src/Shell/Tests.antt =====
-- The shell over a small system: programs record their arguments and return how many they have.
use cmpsc_473_operating_syst.Common.{
  ℕ, ◌+◌, ◌-◌, ◌≡◌, refl, Bool, true, false, none, some, List, [], ◌∷◌, length,
}
use cmpsc_473_operating_syst.Shell.{
  Chars, Word, parallel, pipe, sequential, Command, simple, compound, get_word, get_argv, get_words,
  Exit, exited, Os,
}
use cmpsc_473_operating_syst.Shell.Run.{
  returned, cd_word, and_then, redirect, run_program, parse_simple, run_verb, run_simple, run_cd,
  shell_cd, run_on_pipe, parse_command,
}
use cmpsc_473_operating_syst.Shell.Loop.{read_line}
use cmpsc_473_operating_syst.Shell.Chains.{if_zero, if_nonzero, tree, walk, parse_command-tree}
use cmpsc_473_operating_syst.Shell.Isolation.{KeptByPipes, Keeps, parse_command-Keeps}

abbrev one_after_other :
    (List (List Chars) → Exit × List (List Chars))
    → (List (List Chars) → Exit × List (List Chars))
    → List (List Chars)
    → Exit × Exit × List (List Chars)
one_after_other f g w = let (e1, w1) = f w in let (e2, w2) = g w1 in (e1, e2, w2)

-- A process is the depth of its directory.
abbrev small : Os ℕ (List (List Chars))
small = record {
  getenv = λ p name. none;
  setenv = λ p name value. (0, p);
  chdir = λ p w dir. (0, p + 1);
  fork = λ w. (true, w);
  pipe_ends = λ p w. (true, p, p, p, w);
  close_ends = λ ok p. p;
  read_from = λ p w file. (p, w);
  write_to = λ target append p w file. (p, w);
  execvp = λ p argv w. some (exited (length argv - 1), argv ∷ w);
  prints = λ p w. w;
  together = one_after_other;
}

abbrev word : Chars → Word
word s = record { string = s; expand = false } ∷ []

abbrev plain : Chars → List Word → Command
plain verb params = simple (record {
  verb = word verb;
  params = params;
  input = [];
  output = [];
  errors = [];
  io_flags = 0;
})

-- A program that succeeds, one that fails, and `cd`.
abbrev good : Command
good = plain (65 ∷ []) []

abbrev bad : Command
bad = plain (66 ∷ []) (word (67 ∷ []) ∷ [])

abbrev into : Command
into = plain cd_word (word (67 ∷ []) ∷ [])

abbrev mixed : Command
mixed = tree bad ((if_zero, good) ∷ (if_nonzero, good) ∷ [])

mixed-runs :
    parse_command small mixed 0 []
    ≡ returned 0 0 (((65 ∷ []) ∷ []) ∷ ((66 ∷ []) ∷ (67 ∷ []) ∷ []) ∷ [])
unfolding parse_command run_simple run_verb parse_simple redirect run_program get_word get_words
    get_argv
mixed-runs = refl

parse_command-tree_example :
    parse_command small mixed 0 []
    ≡ and_then
        (parse_command small bad 0 [])
        (walk small ((if_zero, good) ∷ (if_nonzero, good) ∷ []))
parse_command-tree_example =
    parse_command-tree small ((if_zero, good) ∷ (if_nonzero, good) ∷ []) bad 0 []

into-runs : parse_command small into 0 [] ≡ returned 0 1 []
unfolding parse_command run_simple run_verb run_cd shell_cd redirect get_word
into-runs = refl

-- `cd` in a child, and a program in the shell.
abbrev inside : Command
inside = compound sequential (compound parallel into good) good

-- A process is the depth of its directory and the number of its open files; `works` says whether `fork`
-- does.
abbrev counted : Bool → Os (ℕ × ℕ) ℕ
counted works = record {
  getenv = λ p name. none;
  setenv = λ p name value. (0, p);
  chdir = λ p w dir. (0, (p.0 + 1, p.1));
  fork = λ w. (works, w);
  pipe_ends = λ p w. (true, (p.0, p.1 + 2), (p.0, p.1), (p.0, p.1), w);
  close_ends = λ ok p. (p.0, p.1 - 2);
  read_from = λ p w file. (p, w);
  write_to = λ target append p w file. (p, w);
  execvp = λ p argv w. some (exited (length argv - 1), w + 1);
  prints = λ p w. w;
  together = λ f g w. let (e1, w1) = f w in let (e2, w2) = g w1 in (e1, e2, w2);
}

depth : ℕ × ℕ → ℕ
depth p = p.0

counted-KeptByPipes : (works : Bool) → KeptByPipes (counted works) depth
unfolding depth
counted-KeptByPipes works = record {
  pipe_keeps = λ p w. refl;
  close_keeps = λ ok p. refl;
  environment = λ p q e. refl;
}

-- `cd` in a child on a pipe, and a program in the shell.
abbrev on_pipe : Command
on_pipe = compound sequential (compound pipe into good) inside

parse_command-Keeps_example : Keeps depth (0, 3) (parse_command (counted true) on_pipe (0, 3) 0)
unfolding get_word
parse_command-Keeps_example =
    parse_command-Keeps (counted true) depth on_pipe (0, 3) 0 (counted-KeptByPipes true)
      (tt, (tt, (refl, refl)))

-- A failed `fork` leaves both ends of the pipe open.
leaks : parse_command (counted false) (compound pipe good good) (0, 3) 0 ≡ returned 0 (0, 5) 0
unfolding parse_command run_on_pipe
leaks = refl

-- "hi!" in two chunks, with the line end of Windows.
hello-read :
    read_line none ((104 ∷ 105 ∷ []) ∷ (33 ∷ 13 ∷ 10 ∷ []) ∷ (120 ∷ []) ∷ [])
    ≡ (some (104 ∷ 105 ∷ 33 ∷ []), (120 ∷ []) ∷ [])
unfolding read_line
hello-read = refl
