-- ===== src/QueueChat/Client.antt =====
-- "13 work/task2/client.c": the thread of a client that prints what arrives in its queue. `buffer` is the
-- memory at `&msg`, which keeps what a shorter message leaves of it, and `own` the client's name. The
-- windows are left out: a line is the same event in each of them.
pub mod Shows
use home_work.Base.{
  ℕ, zero, suc, List, [], ◌∷◌, ◌++◌, Option, none, some, Bool, true, false, if◌then◌else◌, ◌||◌,
}
use home_work.Libc.{Bytes, str_eq}
use home_work.Posix.{
  Program, pure, ◌>>=◌, ◌>>◌, unlink_queue, did, ask, receive, close, show_text, exit,
  out_of_rounds,
}
use home_work.Sockets.{overlay}
use home_work.QueueChat.{text_of, name_of, join_text, joined_text, newline}

-- "/quit"
abbrev pub quit_text : Bytes
quit_text = 47 ∷ 113 ∷ 117 ∷ 105 ∷ 116 ∷ []

-- " left the chat"
abbrev pub left_text : Bytes
left_text = 32 ∷ 108 ∷ 101 ∷ 102 ∷ 116 ∷ 32 ∷ 116 ∷ 104 ∷ 101 ∷ 32 ∷ 99 ∷ 104 ∷ 97 ∷ 116 ∷ []

-- ": "
abbrev pub colon : Bytes
colon = 58 ∷ 32 ∷ []

-- The body of the loop behind `mq_receive`.
unfoldable pub print_received : (own msg : Bytes) → Program (Unit {0})
unfolding str_eq
print_received own msg =
    if str_eq (text_of msg) join_text || str_eq (text_of msg) quit_text
    then (if str_eq (text_of msg) join_text
        then show_text (name_of msg ++ joined_text ++ newline)
        else show_text (name_of msg ++ left_text ++ newline))
    else (if str_eq (name_of msg) own
        then pure tt
        else show_text (name_of msg ++ colon ++ text_of msg ++ newline))

-- `while (1)`
unfoldable pub receive_messages : (rounds : ℕ) (own buffer : Bytes) → Program (Unit {0})
unfolding receive overlay print_received
receive_messages zero own buffer = out_of_rounds
receive_messages (suc rounds) own buffer = do
  received ← receive 288
  λ p. elim received [
    | none ↦ receive_messages rounds own buffer p
    | some message ↦
        (do
          print_received own (overlay message buffer)
          receive_messages rounds own (overlay message buffer))
          p
  ]
