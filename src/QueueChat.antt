-- ===== src/QueueChat.antt =====
-- "13 work/task2/server.c": the server of a chat over message queues. A client joins with its name, and
-- reads what the others write from a queue named after it. The memory at `&msg` when a message comes
-- into it is `stack log`, the bytes behind it included, where `log` is what has happened before, so that it may
-- be other bytes in each round: a message shorter than its 288 bytes leaves the rest of them as they are.
pub mod Due
pub mod Steps
pub mod Routes
pub mod Delivers
pub mod Client
mod Examples
use home_work.Base.{
  ℕ, zero, suc, List, [], ◌∷◌, ◌++◌, Option, none, some, Bool, true, false, if◌then◌else◌, ltb,
  length, take, drop,
}
use home_work.Libc.{Bytes, strn_eq}
use home_work.Posix.{
  Call, create_queue, open_queue, unlink_queue, Event, did, sent, Process, Run, done, fault,
  Program, pure, ◌>>=◌, ◌>>◌, ask, open_with, succeeds, receive, close, show_text, exit,
  open_or_give_up, out_of_rounds,
}
use home_work.Sockets.{overlay}
use home_work.Text.{until_nul}

-- "/chat_queue"
abbrev pub chat_queue : Bytes
chat_queue = 47 ∷ 99 ∷ 104 ∷ 97 ∷ 116 ∷ 95 ∷ 113 ∷ 117 ∷ 101 ∷ 117 ∷ 101 ∷ []

-- "/join"
abbrev pub join_text : Bytes
join_text = 47 ∷ 106 ∷ 111 ∷ 105 ∷ 110 ∷ []

-- "/client_"
abbrev pub client_prefix : Bytes
client_prefix = 47 ∷ 99 ∷ 108 ∷ 105 ∷ 101 ∷ 110 ∷ 116 ∷ 95 ∷ []

-- " joined the chat"
abbrev pub joined_text : Bytes
joined_text =
    32 ∷ 106 ∷ 111 ∷ 105 ∷ 110 ∷ 101 ∷ 100 ∷ 32 ∷ 116 ∷ 104 ∷ 101 ∷ 32 ∷ 99 ∷ 104 ∷ 97 ∷ 116 ∷ []

-- "Chat is full"
abbrev pub full_text : Bytes
full_text = 67 ∷ 104 ∷ 97 ∷ 116 ∷ 32 ∷ 105 ∷ 115 ∷ 32 ∷ 102 ∷ 117 ∷ 108 ∷ 108 ∷ []

-- "Server started"
abbrev pub started_text : Bytes
started_text = 83 ∷ 101 ∷ 114 ∷ 118 ∷ 101 ∷ 114 ∷ 32 ∷ 115 ∷ 116 ∷ 97 ∷ 114 ∷ 116 ∷ 101 ∷ 100 ∷ []

-- "Server shutting down"
abbrev pub shutting_down : Bytes
shutting_down =
    83 ∷ 101 ∷ 114 ∷ 118 ∷ 101 ∷ 114 ∷ 32 ∷ 115 ∷ 104 ∷ 117 ∷ 116 ∷ 116 ∷ 105 ∷ 110 ∷ 103 ∷ 32 ∷ 100
    ∷ 111 ∷ 119 ∷ 110 ∷ []

-- `msg.text` and `msg.name` as strings, of the memory at `&msg`.
abbrev pub text_of : Bytes → Bytes
text_of msg = until_nul msg

abbrev pub name_of : Bytes → Bytes
name_of msg = until_nul (drop 256 msg)

-- `strncpy` into a field of `n` bytes.
unfoldable pub field : ℕ → Bytes → Bytes
field zero string = []
field (suc n) [] = 0 ∷ field n []
field (suc n) (b ∷ string) = b ∷ field n string

-- A whole `Message`.
unfoldable pub message_of : (text name : Bytes) → Bytes
unfolding field
message_of text name = field 256 text ++ field 32 name

-- `snprintf(..., MAX_NAME_SIZE, "/client_%s", name)`
unfoldable pub queue_of : (name : Bytes) → Bytes
queue_of name = take 31 (client_prefix ++ name)

-- The loop over the clients, of which `clients` are left.
unfoldable pub broadcast_message : (clients : List Bytes) (msg : Bytes) → Program (Unit {0})
unfolding open_with succeeds close
broadcast_message [] msg = pure tt
broadcast_message (queue ∷ clients) msg = do
  opened ← open_with (open_queue queue)
  λ p. elim opened [
    | none ↦ broadcast_message clients msg p
    | some client_mq ↦
        (do succeeds (sent (take 288 msg)); close client_mq; broadcast_message clients msg) p
  ]

-- The loop of `send_user_list_to_client`.
unfoldable pub send_names : (clients : List Bytes) → Program (Unit {0})
unfolding succeeds message_of
send_names [] = pure tt
send_names (queue ∷ clients) = do succeeds (sent (message_of join_text queue)); send_names clients

unfoldable pub send_user_list_to_client :
    (client_queue : Bytes) (clients : List Bytes) → Program (Unit {0})
unfolding open_with send_names close
send_user_list_to_client client_queue clients = do
  opened ← open_with (open_queue client_queue)
  λ p. elim opened [
    | none ↦ done tt p
    | some client_mq ↦ (do send_names clients; close client_mq) p
  ]

-- The write to `client_name[client_count]`, and `client_count++`.
unfoldable pub add_client : (queue : Bytes) (clients : List Bytes) → Program (List Bytes)
add_client queue clients p =
    if ltb (length clients) 10 then done (clients ++ (queue ∷ [])) p else fault

abbrev pub newline : Bytes
newline = 10 ∷ []

-- `strncmp(msg.text, "/join", 5) == 0`
abbrev pub is_join : Bytes → Bool
is_join msg = strn_eq 5 (text_of msg) join_text

-- A client joins.
unfoldable pub welcome : (clients : List Bytes) (msg : Bytes) → Program (List Bytes)
unfolding add_client broadcast_message send_user_list_to_client queue_of
welcome clients msg = do
  joined ← add_client (queue_of (name_of msg)) clients
  broadcast_message joined msg
  send_user_list_to_client (queue_of (name_of msg)) joined
  show_text (take 255 (name_of msg ++ joined_text) ++ newline)
  pure joined

unfoldable pub relay : (clients : List Bytes) (msg : Bytes) → Program (List Bytes)
unfolding broadcast_message
relay clients msg = do
  show_text (name_of msg ++ (58 ∷ 32 ∷ []) ++ text_of msg ++ newline)
  broadcast_message clients msg
  pure clients

-- The body of the loop behind `mq_receive`; the result is the table of clients.
unfoldable pub handle : (clients : List Bytes) (msg : Bytes) → Program (List Bytes)
unfolding welcome relay
handle clients msg =
    if is_join msg
    then (if ltb (length clients) 10
        then welcome clients msg
        else (do show_text (full_text ++ newline); pure clients))
    else relay clients msg

-- `while (1)`; behind the read, the log is that of before with the message on it.
unfoldable pub serve_chat :
    (rounds : ℕ) (stack : List Event → Bytes) (clients : List Bytes) → Program (Unit {0})
unfolding receive handle overlay
serve_chat zero stack clients = out_of_rounds
serve_chat (suc rounds) stack clients = do
  received ← receive 288
  λ p. elim received [
    | none ↦ serve_chat rounds stack clients p
    | some message ↦
        (do
          clients' ← handle clients (overlay message (stack (drop 1 p.log)))
          serve_chat rounds stack clients')
          p
  ]

-- `sigint_handler`, which runs when the user interrupts the server.
unfoldable pub sigint_handler : (mq : ℕ) → Program (Unit {0})
unfolding close ask exit
sigint_handler mq = do
  close mq
  ask (did (unlink_queue chat_queue))
  show_text (newline ++ shutting_down ++ newline)
  exit 0

unfoldable pub server_main : (rounds : ℕ) (stack : List Event → Bytes) → Program (Unit {0})
unfolding open_or_give_up serve_chat
server_main rounds stack = do
  mq ← open_or_give_up [] (create_queue chat_queue)
  show_text (started_text ++ newline)
  serve_chat rounds stack []
