-- ===== src/Posix.antt =====
-- A process that talks to the system through calls whose answers are not its own: the answers are a list
-- that the run is given, the process keeps its open descriptors and a log of what it did, the newest event
-- first. A run whose answers are used up waits in its next call.
pub mod Ensures
pub mod Pairs
pub mod Rules
use home_work.Base.{
  ℕ, ◌==◌, List, [], ◌∷◌, ◌++◌, Option, none, some, Bool, true, false, take, if◌then◌else◌,
}
use home_work.Libc.{Bytes}

-- What a call returns: `value` is `none` for -1, and `payload` is what a read delivers into the buffer:
-- its length, and not `value`, is the number of bytes read.
pub record Answer : Type 0 where
  pub value : Option ℕ
  pub payload : Bytes

-- `any_at port` is INADDR_ANY at a port, `inet` an IPv4 address with a port, `local_path` a path of AF_LOCAL.
pub data Address : Type 0 where
  any_at : ℕ → Address
  inet : (a b c d port : ℕ) → Address
  local_path : Bytes → Address

pub data Transport : Type 0 where
  stream datagram raw packet : Transport

-- `using fd` and `piped read_end write_end` are no calls: they tell the descriptor of the next read or send,
-- where a program has several, and the ends of the pipe that was made.
pub data Call : Type 0 where
  socket : Transport → Call
  bind connect unlink : Address → Call
  listen recv watch : ℕ → Call
  accept getsockname getpeername set_broadcast join_group select epoll_create epoll_wait sleep :
      Call
  read_line thread_create : Call
  using : ℕ → Call
  set_header_included hardware_address interface_index : Call
  allocate : ℕ → Call
  pipe fork wait : Call
  piped : (read_end write_end : ℕ) → Call
  redirect_input redirect_output : ℕ → Call
  execute : List Bytes → Call
  create_queue open_queue unlink_queue : Bytes → Call

-- `did c` is a call of `c`; `got b` a message that a read delivered; `sent b` a message handed to
-- `send`; `closed fd` a `close`; `shown b` a text that is printed.
pub data Event : Type 0 where
  did : Call → Event
  got : Bytes → Event
  sent : Bytes → Event
  closed : ℕ → Event
  shown : Bytes → Event

pub record Process : Type 0 where
  pub answers : List Answer
  pub descriptors : List ℕ
  pub log : List Event

-- `exited n` is `exit(n)` or the return of `n` from `main`, `blocked` waits in a call for ever.
pub data Run (A : Type 0) : Type 0 where
  done : A → Process → Run A
  exited : ℕ → Process → Run A
  blocked : Process → Run A
  fault : Run A
  out_of_fuel : Run A

abbrev pub Program : Type 0 → Type 0
Program A = Process → Run A

abbrev pub pure : {A : Type 0} → A → Program A
pure a p = done a p

module _ {A C : Type 0} where
  abbrev pub and_then : Run A → (A → Program C) → Run C
  and_then (done a p) k = k a p
  and_then (exited n p) k = exited n p
  and_then (blocked p) k = blocked p
  and_then fault k = fault
  and_then out_of_fuel k = out_of_fuel

  infixl 5 ◌>>=◌ ◌>>◌
  abbrev pub ◌>>=◌ : Program A → (A → Program C) → Program C
  m >>= k = λ p. and_then (m p) k

  abbrev pub ◌>>◌ : Program A → Program C → Program C
  m >> n = m >>= λ _. n

abbrev pub note : Event → Process → Process
note e p = record p { log = e ∷ p.log }

abbrev pub first_answer : List Answer → Program Answer
first_answer [] p = blocked p
first_answer (a ∷ rest) p = done a (record p { answers = rest })

-- Every call is logged, and takes the next answer.
unfoldable pub ask : Event → Program Answer
ask e p = first_answer p.answers (note e p)

-- A call that returns a new descriptor.
unfoldable pub open_with : Call → Program (Option ℕ)
unfolding ask
open_with c = do
  a ← ask (did c)
  λ p. elim a.value [
    | none ↦ done none p
    | some fd ↦ done (some fd) (record p { descriptors = fd ∷ p.descriptors })
  ]

-- A call of which only the failure matters.
unfoldable pub succeeds : Event → Program Bool
unfolding ask
succeeds e = do a ← ask e; pure (elim a.value [ none ↦ false | some n ↦ true ])

-- A read of at most `cap` bytes; the end of a stream is the empty message.
unfoldable pub receive : ℕ → Program (Option Bytes)
unfolding ask
receive cap = do
  a ← ask (did (recv cap))
  λ p. elim a.value [
    | none ↦ done none p
    | some n ↦ done (some (take cap a.payload)) (note (got (take cap a.payload)) p)
  ]

abbrev pub erase_one : ℕ → List ℕ → List ℕ
erase_one fd [] = []
erase_one fd (x ∷ xs) = if x == fd then xs else x ∷ erase_one fd xs

unfoldable pub close : ℕ → Program (Unit {0})
close fd p = done tt (record (note (closed fd) p) { descriptors = erase_one fd p.descriptors })

abbrev pub show_text : Bytes → Program (Unit {0})
show_text b p = done tt (note (shown b) p)

unfoldable pub exit : {A : Type 0} → ℕ → Program A
exit n p = exited n p

-- The descriptor of the next read or send, for programs in which there are several.
abbrev pub use_descriptor : ℕ → Program (Unit {0})
use_descriptor fd p = done tt (note (did (using fd)) p)

-- `close` of each, in order.
unfoldable pub close_all : List ℕ → Program (Unit {0})
unfolding close
close_all [] = pure tt
close_all (fd ∷ fds) = close fd >> close_all fds

-- `perror(...); close(...); ... exit(1);`
unfoldable pub give_up : {A : Type 0} → List ℕ → Program A
unfolding close_all exit
give_up fds = close_all fds >> exit 1

-- `if (call == -1) { perror(...); close(...); ... exit(1); }`
unfoldable pub check : List ℕ → Event → Program (Unit {0})
unfolding succeeds give_up
check fds e = do ok ← succeeds e; if ok then pure tt else give_up fds

unfoldable pub open_or_give_up : List ℕ → Call → Program ℕ
unfolding open_with give_up
open_or_give_up fds c = do
  opened ← open_with c
  λ p. elim opened [ none ↦ give_up fds p | some fd ↦ done fd p ]

-- The bound on the rounds of a loop is used up.
abbrev pub out_of_rounds : {A : Type 0} → Program A
out_of_rounds p = out_of_fuel

abbrev pub start : List Answer → Process
start answers = record { answers = answers; descriptors = []; log = [] }
