-- ===== src/SharedChat.antt =====
-- "14 work/task2": a chat in shared memory. The server makes the memory with a counter of 0 and then waits;
-- each client has a thread that prints new messages and one that posts them, under a mutex of its own
-- process. A line that a window shows is the message of which it has the name and the text.
pub mod Loops
pub mod States
pub mod Operations
pub mod Delivers
mod Examples
use home_work.Base.{
  ℕ, zero, suc, ◌+◌, ◌-◌, List, [], ◌∷◌, ◌++◌, Option, none, some, Bool, true, false, if◌then◌else◌,
  ltb, get_elem?, set, map, replicate, length, not, ◌&&◌,
}
use home_work.Libc.{Bytes, str_eq, strn_eq}

pub record Message : Type 0 where
  pub name : Bytes
  pub text : Bytes

pub record SharedMemory : Type 0 where
  pub client_count : ℕ
  pub messages : List Message

abbrev pub max_messages : ℕ
max_messages = 100

-- What the holder of `print_mutex` has done: `posting` has stored its message of `input`, `receiving` has
-- left its loop. `gone` is a process that has left; where the mutex is held by nobody the process is `free`.
pub data Doing : Type 0 where
  free receiving gone : Doing
  posting : (input : Bytes) → Doing

pub record Client : Type 0 where
  pub name : Bytes
  pub last_received_msg : ℕ
  pub doing : Doing
  pub message_win : List Message

pub record Chat : Type 0 where
  pub shm : SharedMemory
  pub clients : List Client

-- "/quit"
abbrev pub quit_text : Bytes
quit_text = 47 ∷ 113 ∷ 117 ∷ 105 ∷ 116 ∷ []

infixl 5 ◌>>=◌
abbrev pub ◌>>=◌ : {A C : Type 0} → Option A → (A → Option C) → Option C
none >>= f = none
some a >>= f = f a

-- The loop of `receive_messages`, with `left` rounds until `client_count`; a message behind the last place
-- is not there to be read.
unfoldable pub print_new : (own : Bytes) (left i : ℕ) → List Message → Option (List Message)
unfolding str_eq
print_new own zero i messages = some []
print_new own (suc left) i messages = do
  msg ← get_elem? messages i
  lines ← print_new own left (i + 1) messages
  some (if str_eq msg.name own then lines else msg ∷ lines)

-- `messages[client_count] = msg`
unfoldable pub store_message : Message → SharedMemory → Option SharedMemory
store_message msg s =
    if ltb s.client_count max_messages
    then some
        (record { client_count = s.client_count; messages = set s.messages s.client_count msg })
    else none

-- `client_count++`
abbrev pub count_message : SharedMemory → SharedMemory
count_message s = record { client_count = s.client_count + 1; messages = s.messages }

-- What a process does between two looks of the others: it posts `input` or leaves; it counts what it has
-- posted and shows it; it prints what is new; it sets `last_received_msg`. The loop that prints reads the
-- counter in each round, and no message in front of the counter is written again, so that it is one act when
-- it leaves.
pub data Act : Type 0 where
  post : (input : Bytes) → Act
  count receive settle : Act

-- `waits` is an act for which the mutex is held or is not held, so that it cannot be the next one.
pub data Outcome : Type 0 where
  ran : SharedMemory → Client → Outcome
  waits fault : Outcome

abbrev pub stored : (input : Bytes) → Client → Option SharedMemory → Outcome
stored input k none = fault
stored input k (some s) = ran s (record {
  name = k.name;
  last_received_msg = k.last_received_msg;
  doing = posting input;
  message_win = k.message_win;
})

abbrev pub printed : SharedMemory → Client → Option (List Message) → Outcome
printed s k none = fault
printed s k (some lines) = ran s (record {
  name = k.name;
  last_received_msg = k.last_received_msg;
  doing = receiving;
  message_win = k.message_win ++ lines;
})

-- `wgetnstr` reads into `name` and `input`, with as many bytes as they have, and writes a NUL behind what it
-- reads: a name of 32 bytes, or a line of 256, is out of bounds. What fits is copied by `strncpy` with a NUL.
abbrev pub fits : (own input : Bytes) → Bool
fits own input = ltb (length own) 32 && ltb (length input) 256

unfoldable pub act : Act → Doing → SharedMemory → Client → Outcome
unfolding strn_eq store_message print_new
act (post input) free s k =
    if not (fits k.name input)
    then fault
    else if strn_eq 5 input quit_text
    then ran s (record {
      name = k.name;
      last_received_msg = k.last_received_msg;
      doing = gone;
      message_win = k.message_win;
    })
    else stored input k (store_message (record { name = k.name; text = input }) s)
act count (posting input) s k = ran (count_message s) (record {
  name = k.name;
  last_received_msg = k.last_received_msg;
  doing = free;
  message_win = k.message_win ++ (record { name = k.name; text = input } ∷ []);
})
act receive free s k =
    printed s k
      (print_new k.name (s.client_count - k.last_received_msg) k.last_received_msg s.messages)
act settle receiving s k = ran s (record {
  name = k.name;
  last_received_msg = s.client_count;
  doing = free;
  message_win = k.message_win;
})
act other state s k = waits

-- The chat after a schedule, `none` after a fault; an act that waits, or of a client that is not there, is
-- passed over.
abbrev pub put_back : ℕ → Chat → Outcome → Option Chat
put_back c w waits = some w
put_back c w fault = none
put_back c w (ran s k) = some (record { shm = s; clients = set w.clients c k })

unfoldable pub step : ℕ → Act → Chat → Option Chat
unfolding act
step c a w = elim (get_elem? w.clients c) [
  | none ↦ some w
  | some k ↦ put_back c w (act a k.doing w.shm k)
]

unfoldable pub run : List (ℕ × Act) → Chat → Option Chat
unfolding step
run [] w = some w
run ((c, a) ∷ acts) w = do w' ← step c a w; run acts w'

-- The memory as the server leaves it, zeroed by `ftruncate`, and clients that have given their names.
unfoldable pub opened : List Bytes → Chat
opened names = record {
  shm = record {
    client_count = 0;
    messages = replicate max_messages (record { name = []; text = [] });
  };
  clients =
      map (λ own. record { name = own; last_received_msg = 0; doing = free; message_win = [] })
        names;
}
