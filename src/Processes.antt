-- ===== src/Processes.antt =====
-- "10  work/task2.c": a process that makes a tree of five others, and waits for each before it makes the next.
-- The run is that of one process, which goes on as the child where `fork` returns 0. Of what is printed,
-- the lines with the name of a process on the standard output are kept, without their newlines.
pub mod Tree
mod Examples
use home_work.Base.{ℕ, ◌+◌, List, [], ◌∷◌, ◌++◌, Option, none, some}
use home_work.Libc.{Bytes}
use home_work.Posix.{wait, did, Program, pure, ◌>>=◌, ◌>>◌, ask, show_text, exit}
use home_work.Shell.{fork_into}

-- "Процесс 1", in UTF-8, and so on.
abbrev pub process_name : ℕ → Bytes
process_name n =
    208
    ∷ 159
    ∷ 209
    ∷ 128
    ∷ 208
    ∷ 190
    ∷ 209
    ∷ 134
    ∷ 208
    ∷ 181
    ∷ 209
    ∷ 129
    ∷ 209
    ∷ 129
    ∷ 32
    ∷ (48 + n)
    ∷ []

-- "Процесс 1:", with which a process announces itself, and so on.
abbrev pub announcement : ℕ → Bytes
announcement n = process_name n ++ (58 ∷ [])

-- " завершился с кодом ", in UTF-8.
abbrev pub ended_text : Bytes
ended_text =
    32 ∷ 208 ∷ 183 ∷ 208 ∷ 176 ∷ 208 ∷ 178 ∷ 208 ∷ 181 ∷ 209 ∷ 128 ∷ 209 ∷ 136 ∷ 208 ∷ 184 ∷ 208
    ∷ 187 ∷ 209 ∷ 129 ∷ 209 ∷ 143 ∷ 32 ∷ 209 ∷ 129 ∷ 32 ∷ 208 ∷ 186 ∷ 208 ∷ 190 ∷ 208 ∷ 180 ∷ 208
    ∷ 190 ∷ 208 ∷ 188 ∷ 32 ∷ []

-- " не завершился"
abbrev pub not_ended_text : Bytes
not_ended_text =
    32 ∷ 208 ∷ 189 ∷ 208 ∷ 181 ∷ 32 ∷ 208 ∷ 183 ∷ 208 ∷ 176 ∷ 208 ∷ 178 ∷ 208 ∷ 181 ∷ 209 ∷ 128
    ∷ 209 ∷ 136 ∷ 208 ∷ 184 ∷ 208 ∷ 187 ∷ 209 ∷ 129 ∷ 209 ∷ 143 ∷ []

-- What is printed of the status: `digits` is the exit code as `printf` writes it, and no bytes stand for a
-- process that has not exited.
unfoldable pub status_line : (n : ℕ) (digits : Bytes) → Bytes
status_line n [] = process_name n ++ not_ended_text
status_line n (d ∷ digits) = process_name n ++ (ended_text ++ d ∷ digits)

-- The lines from a `fork` to the print of the status: process `n` does `body` and exits, the other one waits
-- for it, and prints what has become of it.
unfoldable pub spawn : (n : ℕ) (body : Program (Unit {0})) → Program (Unit {0})
unfolding fork_into ask exit status_line
spawn n body =
    fork_into (do show_text (announcement n); body; exit 0) (exit 1)
      (do a ← ask (did wait); show_text (status_line n a.payload))

unfoldable pub create_and_monitor_processes : Program (Unit {0})
unfolding spawn
create_and_monitor_processes = do spawn 3 (pure tt); spawn 4 (pure tt)

unfoldable pub create_and_check_process : Program (Unit {0})
unfolding spawn
create_and_check_process = spawn 5 (pure tt)

unfoldable pub main : Program (Unit {0})
unfolding spawn create_and_monitor_processes create_and_check_process exit
main = do spawn 1 create_and_monitor_processes; spawn 2 create_and_check_process; exit 0
