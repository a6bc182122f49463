-- ===== src/SharedChat/Loops.antt =====
-- "14 work/task2" when no process looks while another one is between two of its acts: what the windows show is
-- what one log of messages says.
use home_work.Base.{
  ℕ, zero, suc, ltb, ◌+◌, ◌-◌, ◌≤◌, List, [], ◌∷◌, ◌++◌, Option, none, some, Bool, true, ◌≡◌, refl,
  if◌then◌else◌, get_elem?, set, length, take, drop, take-append-drop, length-take, length-drop,
  arith, ap, sym, ◌∙◌, Bool-cases, inl, inr, not, ◌&&◌, append_assoc, length-append,
}
use mathlib.Core.Path.{subst}
use home_work.Libc.{Bytes, str_eq, strn_eq, str_eq_self}
use home_work.SharedChat.{Message, quit_text, print_new, Act, post, count, receive, settle}

-- A whole operation of a client.
pub data Operation : Type 0 where
  posts : (c : ℕ) (input : Bytes) → Operation
  reads : (c : ℕ) → Operation

abbrev pub acts_of : Operation → List (ℕ × Act)
acts_of (posts c input) = (c, post input) ∷ (c, count) ∷ []
acts_of (reads c) = (c, receive) ∷ (c, settle) ∷ []

abbrev pub client_of : Operation → ℕ
client_of (posts c input) = c
client_of (reads c) = c

unfoldable pub schedule : List Operation → List (ℕ × Act)
schedule [] = []
schedule (op ∷ ops) = acts_of op ++ schedule ops

-- No client leaves, and the line fits its array.
abbrev pub stays : Operation → Bool
stays (posts c input) = not (strn_eq 5 input quit_text) && ltb (length input) 256
stays (reads c) = true

unfoldable pub all_stay : List Operation → Bool
unfolding strn_eq
all_stay [] = true
all_stay (op ∷ ops) = stays op && all_stay ops

-- Every name fits its array.
unfoldable pub all_fit : List Bytes → Bool
all_fit [] = true
all_fit (own ∷ names) = ltb (length own) 32 && all_fit names

pub all_fit-get_elem? :
    (names : List Bytes) (c : ℕ) (own : Bytes)
    → all_fit names ≡ true
    → get_elem? names c ≡ some own
    → ltb (length own) 32 ≡ true
unfolding all_fit
all_fit-get_elem? [] c own h e = cc
all_fit-get_elem? (x ∷ names) zero own h e =
    let same : x ≡ own = cc e in subst (λ o. ltb (length o) 32 ≡ true) same (ground arith)
all_fit-get_elem? (x ∷ names) (suc c) own h e = all_fit-get_elem? names c own (ground arith) e

-- The log: what the operation of a client that is there adds to it.
abbrev pub posted_by : Option Bytes → (input : Bytes) → List Message
posted_by none input = []
posted_by (some own) input = record { name = own; text = input } ∷ []

abbrev pub posted : List Bytes → Operation → List Message
posted names (posts c input) = posted_by (get_elem? names c) input
posted names (reads c) = []

unfoldable pub log_of : List Bytes → List Operation → List Message
log_of names [] = []
log_of names (op ∷ ops) = posted names op ++ log_of names ops

-- The messages of others.
unfoldable pub foreign : Bytes → List Message → List Message
unfolding str_eq
foreign own [] = []
foreign own (msg ∷ msgs) = if str_eq msg.name own then foreign own msgs else msg ∷ foreign own msgs

pub foreign-append :
    (own : Bytes) (a b : List Message) → foreign own (a ++ b) ≡ foreign own a ++ foreign own b
unfolding foreign
foreign-append own [] b = refl
foreign-append own (msg ∷ a) b = elim (Bool-cases (str_eq msg.name own)) [
  | inl e ↦ rw e (foreign-append own a b)
  | inr e ↦ rw e (ap (λ x. msg ∷ x) (foreign-append own a b))
]

pub foreign_own : (own text : Bytes) → foreign own (record { name = own; text = text } ∷ []) ≡ []
unfolding foreign
foreign_own own text = rw (str_eq_self own) refl

pub foreign-foreign : (own : Bytes) (a : List Message) → foreign own (foreign own a) ≡ foreign own a
unfolding foreign
foreign-foreign own [] = refl
foreign-foreign own (msg ∷ a) = elim (Bool-cases (str_eq msg.name own)) [
  | inl e ↦ rw e (foreign-foreign own a)
  | inr e ↦ rw e (rw e (ap (λ x. msg ∷ x) (foreign-foreign own a)))
]

pub get_elem?-behind :
    (before : List Message) (msg : Message) (rest : List Message)
    → get_elem? (before ++ (msg ∷ rest)) (length before) ≡ some msg
get_elem?-behind [] msg rest = refl
get_elem?-behind (x ∷ before) msg rest = get_elem?-behind before msg rest

pub set-behind :
    (before : List Message) (old msg : Message) (rest : List Message)
    → set (before ++ (old ∷ rest)) (length before) msg ≡ before ++ (msg ∷ rest)
set-behind [] old msg rest = refl
set-behind (x ∷ before) old msg rest = ap (λ xs. x ∷ xs) (set-behind before old msg rest)

pub one_further :
    (before : List Message) (msg : Message) (rest : List Message)
    → (before ++ (msg ∷ [])) ++ rest ≡ before ++ (msg ∷ rest)
one_further [] msg rest = refl
one_further (x ∷ before) msg rest = ap (λ xs. x ∷ xs) (one_further before msg rest)

-- A loop that reads `front`, at its place in the memory, prints the messages of others in it.
print_new-foreign :
    (own : Bytes) (before front rest : List Message)
    → print_new own (length front) (length before) (before ++ (front ++ rest))
      ≡ some (foreign own front)
unfolding print_new foreign
print_new-foreign own before [] rest = refl
print_new-foreign own before (msg ∷ front) rest =
    let place : length (before ++ (msg ∷ [])) ≡ length before + 1 =
      length-append before (msg ∷ []) in
    let later : print_new own (length front) (length before + 1) (before ++ (msg ∷ (front ++ rest)))
        ≡ some (foreign own front) =
      subst (λ xs. print_new own (length front) (length before + 1) xs ≡ some (foreign own front))
        (one_further before msg (front ++ rest))
        (subst
          (λ n.
            print_new own (length front) n ((before ++ (msg ∷ [])) ++ (front ++ rest))
            ≡ some (foreign own front))
          place (print_new-foreign own (before ++ (msg ∷ [])) front rest)) in
    rw (get_elem?-behind before msg (front ++ rest), later) refl

-- The loop from `last` on.
pub print_new-log :
    (own : Bytes) (last : ℕ) (log rest : List Message)
    → last ≤ length log
    → print_new own (length log - last) last (log ++ rest) ≡ some (foreign own (drop last log))
print_new-log own last log rest h =
    let before : List Message = take last log in
    let front : List Message = drop last log in
    let whole : before ++ (front ++ rest) ≡ log ++ rest =
      sym (append_assoc before front rest) ∙ ap (λ xs. xs ++ rest) (take-append-drop last log) in
    let place : length before ≡ last = omega (arith, length-take last log, h) in
    let rounds : length front ≡ length log - last = length-drop last log in
    subst (λ xs. print_new own (length log - last) last xs ≡ some (foreign own front)) whole
      (subst
        (λ n.
          print_new own (length log - last) n (before ++ (front ++ rest))
          ≡ some (foreign own front))
        place
        (subst
          (λ n.
            print_new own n (length before) (before ++ (front ++ rest)) ≡ some (foreign own front))
          rounds (print_new-foreign own before front rest)))
