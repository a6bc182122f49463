-- ===== src/Shell.antt =====
-- "12 work/task3.c": a shell with one pipe. A string array with its NULL is the list of the strings in front
-- of it, and a write behind the array's 100 places is a fault, `none` of `args_of`.
pub mod Words
pub mod Pipes
pub mod Lines
mod Examples
use home_work.Base.{
  ℕ, zero, suc, ◌+◌, List, [], ◌∷◌, ◌++◌, Option, none, some, Bool, true, false, if◌then◌else◌, ltb,
  ◌==◌, ◌||◌, length, take,
}
use home_work.Libc.{Bytes, str_eq}
use home_work.Posix.{
  pipe, piped, note, fork, wait, redirect_input, redirect_output, execute, read_line, did, Process,
  Program, done, fault, pure, out_of_rounds, ◌>>=◌, ◌>>◌, ask, close, exit, show_text,
}
use home_work.Text.{until_nul}

-- The delimiters " \n".
abbrev pub is_delimiter : ℕ → Bool
is_delimiter c = (c == 32) || (c == 10)

unfoldable pub skip_delimiters : Bytes → Bytes
skip_delimiters [] = []
skip_delimiters (c ∷ text) = if is_delimiter c then skip_delimiters text else c ∷ text

unfoldable pub token : Bytes → Bytes
token [] = []
token (c ∷ text) = if is_delimiter c then [] else c ∷ token text

-- What is behind the token and the delimiter that ends it.
unfoldable pub behind_token : Bytes → Bytes
behind_token [] = []
behind_token (c ∷ text) = if is_delimiter c then text else behind_token text

-- `strtok(text, " \n")`: the next token, and where the next call goes on.
unfoldable pub strtok : (text : Bytes) → Option (Bytes × Bytes)
unfolding skip_delimiters token behind_token
strtok text = elim (skip_delimiters text) [
  | [] ↦ none
  | c ∷ rest ↦ some (token (c ∷ rest), behind_token (c ∷ rest))
]

abbrev pub put : Bytes → Option (List Bytes) → Option (List Bytes)
put arg none = none
put arg (some rest) = some (arg ∷ rest)

-- `while ((args[i] = strtok(NULL, " \n")) != NULL) i++;`, with a bound on its rounds.
unfoldable pub fill_args : (rounds i : ℕ) (text : Bytes) → Option (List Bytes)
unfolding strtok
fill_args zero i text = none
fill_args (suc rounds) i text = elim (strtok text) [
  | none ↦ if ltb i 100 then some [] else none
  | some found ↦
      let rest = fill_args rounds (i + 1) (found.1) in
      if ltb i 100 then put (found.0) rest else none
]

-- The arguments of a command; each token takes a byte at least.
unfoldable pub args_of : (text : Bytes) → Option (List Bytes)
unfolding fill_args
args_of text = fill_args (suc (length text)) 0 text

-- `execvp(args[0], args); perror("execvp"); exit(1);`: a program that starts takes the process over, which
-- is the end of the run.
unfoldable pub exec : (args : List Bytes) → Program (Unit {0})
unfolding ask exit
exec args = do
  a ← ask (did (execute args))
  λ p. elim a.value [ none ↦ exit 1 p | some n ↦ exit 0 p ]

-- `pid = fork()`: `child` runs where it returns 0, and `parent` where it does not.
unfoldable pub fork_into :
    (child failed : Program (Unit {0})) (parent : Program (Unit {0})) → Program (Unit {0})
unfolding ask
fork_into child failed parent = do
  a ← ask (did fork)
  λ p. elim a.value [ none ↦ failed p | some pid ↦ (if pid == 0 then child else parent) p ]

unfoldable pub execute_command : (args : List Bytes) → Program (Unit {0})
unfolding fork_into exec ask exit
execute_command args = fork_into (exec args) (exit 1) (do ask (did wait); pure tt)

-- The result of `dup2` is not looked at.
unfoldable pub first_child : (read_end write_end : ℕ) (args : List Bytes) → Program (Unit {0})
unfolding ask close exec
first_child read_end write_end args = do
  ask (did (redirect_output write_end))
  close read_end
  close write_end
  exec args

unfoldable pub second_child : (read_end write_end : ℕ) (args : List Bytes) → Program (Unit {0})
unfolding ask close exec
second_child read_end write_end args = do
  ask (did (redirect_input read_end))
  close write_end
  close read_end
  exec args

-- The end of `execute_pipe`.
unfoldable pub await_both : (read_end write_end : ℕ) → Program (Unit {0})
unfolding ask close
await_both read_end write_end = do
  close read_end
  close write_end
  ask (did wait)
  ask (did wait)
  pure tt

-- `fork` that fails is not noticed here: the parent goes on.
unfoldable pub start_second : (read_end write_end : ℕ) (args2 : List Bytes) → Program (Unit {0})
unfolding fork_into second_child await_both
start_second read_end write_end args2 =
    fork_into (second_child read_end write_end args2) (await_both read_end write_end)
      (await_both read_end write_end)

abbrev pub first_or_zero : List ℕ → ℕ
first_or_zero [] = 0
first_or_zero (n ∷ rest) = n

-- `pipe(pipefd)`: the call returns the end for reading, and delivers the end for writing.
unfoldable pub open_pipe : Program (ℕ × ℕ)
unfolding ask exit
open_pipe = do
  a ← ask (did pipe)
  λ p. elim a.value [
    | none ↦ exit 1 p
    | some read_end ↦
        let write_end = first_or_zero a.payload in
        done (read_end, write_end)
          (record (note (did (piped read_end write_end)) p) {
            descriptors = read_end ∷ write_end ∷ p.descriptors;
          })
  ]

unfoldable pub execute_pipe : (args1 args2 : List Bytes) → Program (Unit {0})
unfolding open_pipe fork_into first_child start_second
execute_pipe args1 args2 = do
  pipefd ← open_pipe
  fork_into (first_child (pipefd.0) (pipefd.1) args1) (start_second (pipefd.0) (pipefd.1) args2)
      (start_second (pipefd.0) (pipefd.1) args2)

-- `strchr(line, '|')`: the texts in front of the first bar and behind it.
unfoldable pub cut_at_bar : (line : Bytes) → Option (Bytes × Bytes)
cut_at_bar [] = none
cut_at_bar (c ∷ line) =
    let rest = cut_at_bar line in
    if c == 124
    then some ([], line)
    else elim rest [ none ↦ none | some cut ↦ some (c ∷ cut.0, cut.1) ]

-- `while (*pipe_pos == ' ') pipe_pos++;`
unfoldable pub skip_spaces : Bytes → Bytes
skip_spaces [] = []
skip_spaces (c ∷ text) = if c == 32 then skip_spaces text else c ∷ text

-- A write behind the arrays is a fault.
abbrev pub with_args : Option (List Bytes) → (List Bytes → Program (Unit {0})) → Program (Unit {0})
with_args none k p = fault
with_args (some args) k p = k args p

-- The two branches of `if (pipe_pos)`.
unfoldable pub run_line : (line : Bytes) (cut : Option (Bytes × Bytes)) → Program (Unit {0})
unfolding skip_spaces args_of execute_pipe execute_command
run_line line none = with_args (args_of line) execute_command
run_line line (some (front, behind)) =
    with_args (args_of front)
      λ args1. with_args (args_of (skip_spaces behind)) λ args2. execute_pipe args1 args2

-- The round of the loop of `main` for a line that is not "exit\n".
unfoldable pub interpret : (line : Bytes) → Program (Unit {0})
unfolding cut_at_bar run_line
interpret line = run_line line (cut_at_bar line)

-- "exit\n"
abbrev pub exit_line : Bytes
exit_line = 101 ∷ 120 ∷ 105 ∷ 116 ∷ 10 ∷ []

-- "> "
abbrev pub prompt : Bytes
prompt = 62 ∷ 32 ∷ []

-- `fgets` reads at most 1023 bytes of a line, and fails at the end of the input.
unfoldable pub shell_loop : (rounds : ℕ) → Program (Unit {0})
unfolding ask interpret str_eq
shell_loop zero = out_of_rounds
shell_loop (suc rounds) = do
  show_text prompt
  a ← ask (did read_line)
  λ p. elim a.value [
    | none ↦ pure tt p
    | some n ↦
        (if str_eq (take 1023 a.payload) exit_line
            then pure tt
            else (do interpret (take 1023 a.payload); shell_loop rounds))
          p
  ]

unfoldable pub shell_main : (rounds : ℕ) → Program (Unit {0})
unfolding shell_loop exit
shell_main rounds = do shell_loop rounds; exit 0
