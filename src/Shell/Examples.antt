-- ===== src/Shell/Examples.antt =====
-- Lines and pipes of the shell.
use home_work.Base.{ℕ, ◌≡◌, refl, List, [], ◌∷◌, some, none, Option}
use home_work.Libc.{Bytes, str_eq}
use home_work.Posix.{Answer, start, Run, exited, done, blocked, fault, out_of_fuel, ask, exit}
use home_work.Shell.{
  shell_main, shell_loop, interpret, run_line, execute_command, fork_into, cut_at_bar, exec,
  args_of, fill_args, strtok, skip_delimiters, token, behind_token,
}

abbrev gives : ℕ → Answer
gives n = record { value = some n; payload = 4 ∷ [] }

-- "ls", "wc", and " ls  wc\n"
abbrev ls : Bytes
ls = 108 ∷ 115 ∷ []

abbrev wc : Bytes
wc = 119 ∷ 99 ∷ []

abbrev line : Bytes
line = 32 ∷ 108 ∷ 115 ∷ 32 ∷ 32 ∷ 119 ∷ 99 ∷ 10 ∷ []

args_of_test : args_of line ≡ some (ls ∷ wc ∷ [])
unfolding args_of fill_args strtok skip_delimiters token behind_token
args_of_test = refl

-- The pipe has the ends 3 and 4, the fork returns 7 in the shell, and 0 in the second child.
abbrev second_child_runs : List Answer
second_child_runs = gives 3 ∷ gives 7 ∷ gives 0 ∷ gives 0 ∷ gives 0 ∷ []

-- "ls | wc\n"
abbrev pipe_line : Bytes
pipe_line = 108 ∷ 115 ∷ 32 ∷ 124 ∷ 32 ∷ 119 ∷ 99 ∷ 10 ∷ []

pipe_line_cut : cut_at_bar pipe_line ≡ some (108 ∷ 115 ∷ 32 ∷ [], 32 ∷ 119 ∷ 99 ∷ 10 ∷ [])
unfolding cut_at_bar
pipe_line_cut = refl

-- A command in a shell whose fork returns 7, and the end of the input.
abbrev shell_runs : List Answer
shell_runs =
    record { value = some 0; payload = line }
    ∷ gives 7
    ∷ gives 7
    ∷ record { value = none; payload = [] }
    ∷ []

abbrev exit_of : Run (Unit {0}) → Option ℕ
exit_of (exited n p) = some n
exit_of (done a p) = none
exit_of (blocked p) = none
exit_of fault = none
exit_of out_of_fuel = none

shell_ends : exit_of (shell_main 3 (start shell_runs)) ≡ some 0
unfolding shell_main shell_loop interpret run_line execute_command fork_into cut_at_bar args_of
    fill_args strtok skip_delimiters token behind_token ask exit str_eq exec
shell_ends = refl
