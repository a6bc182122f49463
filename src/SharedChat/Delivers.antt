-- ===== src/SharedChat/Delivers.antt =====
-- "14 work/task2" when no process acts between two acts of another one's operation: the windows show what
-- one log of messages says.
use home_work.Base.{
  ℕ, zero, suc, ◌+◌, ◌≤◌, List, [], ◌∷◌, ◌++◌, Option, none, some, true, ◌≡◌, refl, get_elem?, map,
  replicate, length, arith, ap, sym, ◌∙◌, Option-cases, inl, inr, append_assoc, append-nil,
  length-append, ltb,
}
use mathlib.Core.Path.{subst, fun_ext}
use home_work.Libc.{Bytes}
use home_work.SharedChat.{
  Message, max_messages, free, fits, Client, Chat, ◌>>=◌, Act, post, count, receive, settle, step,
  run, opened,
}
use home_work.SharedChat.Loops.{
  Operation, client_of, posts, reads, acts_of, schedule, stays, all_stay, all_fit,
  all_fit-get_elem?, posted_by, posted, log_of,
}
use home_work.SharedChat.States.{Shown, client_name, Good, no_name, some_name}
use home_work.SharedChat.Operations.{reads-Good, posts-Good, posts_over}

bind_assoc :
    {A B C : Type 0} (o : Option A) (f : A → Option B) (g : B → Option C)
    → (o >>= f >>= g) ≡ (o >>= (λ a. f a >>= g))
bind_assoc none f g = refl
bind_assoc (some a) f g = refl

run-append : (xs ys : List (ℕ × Act)) (w : Chat) → run (xs ++ ys) w ≡ (run xs w >>= run ys)
unfolding run
run-append [] ys w = refl
run-append ((c, a) ∷ xs) ys w =
    ap (λ f. step c a w >>= f) (fun_ext (run-append xs ys))
    ∙ sym (bind_assoc (step c a w) (run xs) (run ys))

step-absent : (c : ℕ) (a : Act) (w : Chat) → get_elem? w.clients c ≡ none → step c a w ≡ some w
unfolding step
step-absent c a w out = rw (out, step) refl

acts-absent :
    (op : Operation) (w : Chat)
    → get_elem? w.clients (client_of op) ≡ none
    → run (acts_of op) w ≡ some w
unfolding run
acts-absent (posts c input) w out =
    rw (step-absent c (post input) w out) (rw (step-absent c count w out) refl)
acts-absent (reads c) w out =
    rw (step-absent c receive w out) (rw (step-absent c settle w out) refl)

nothing_posted :
    (names : List Bytes) (op : Operation)
    → get_elem? names (client_of op) ≡ none
    → posted names op ≡ []
nothing_posted names (posts c input) e = rw e refl
nothing_posted names (reads c) e = refl

posts_fit :
    (names : List Bytes) (c : ℕ) (own name input : Bytes)
    → all_fit names ≡ true
    → get_elem? names c ≡ some own
    → name ≡ own
    → stays (posts c input) ≡ true
    → fits name input ≡ true
posts_fit names c own name input short e same stay =
    let named : ltb (length name) 32 ≡ true = rw same (all_fit-get_elem? names c own short e) in
    let line : ltb (length input) 256 ≡ true = ground arith in rw (named, line) refl

present :
    (names : List Bytes) (log : List Message) (op : Operation) (w : Chat) (own : Bytes)
    → Good names log w
    → get_elem? names (client_of op) ≡ some own
    → all_fit names ≡ true
    → stays op ≡ true
    → length log + length (posted names op) ≤ max_messages
    → (w' : Chat) × (run (acts_of op) w ≡ some w') × Good names (log ++ posted names op) w'
present names log (posts c input) w own g e short stay room =
    let (k, at, same) = some_name (get_elem? w.clients c) own (g.named c ∙ e) in
    let one : length (posted_by (get_elem? names c) input) ≡ 1 = rw e refl in
    let (w', r, g') =
      posts-Good names log w c k g at input (ground arith)
        (posts_fit names c own k.name input short e same stay) (omega (arith, room, one)) in
    (
      w',
      r,
      subst (λ x. Good names (log ++ posted_by x input) w') (ap (λ x. some x) same ∙ sym e) g',
    )
present names log (reads c) w own g e short stay room =
    let (k, at, same) = some_name (get_elem? w.clients c) own (g.named c ∙ e) in
    let (w', r, g', k', at', n, own') = reads-Good names log w c k g at in (w', r, g')

operation-Good :
    (names : List Bytes) (log : List Message) (op : Operation) (w : Chat)
    → Good names log w
    → all_fit names ≡ true
    → stays op ≡ true
    → length log + length (posted names op) ≤ max_messages
    → (w' : Chat) × (run (acts_of op) w ≡ some w') × Good names (log ++ posted names op) w'
operation-Good names log op w g short stay room =
    elim (Option-cases (get_elem? names (client_of op))) [
      | inl e ↦ (
        w,
        acts-absent op w
            (no_name (get_elem? w.clients (client_of op)) (g.named (client_of op) ∙ e)),
        rw (nothing_posted names op e) (subst (λ l. Good names l w) (sym (append-nil log)) g),
      )
      | inr (own, e) ↦ present names log op w own g e short stay room
    ]

operations-Good :
    (names : List Bytes) (log : List Message) (ops : List Operation) (w : Chat)
    → Good names log w
    → all_fit names ≡ true
    → all_stay ops ≡ true
    → length log + length (log_of names ops) ≤ max_messages
    → (w' : Chat) × (run (schedule ops) w ≡ some w') × Good names (log ++ log_of names ops) w'
unfolding schedule log_of all_stay run
operations-Good names log [] w g short stay room =
    (w, refl, subst (λ l. Good names l w) (sym (append-nil log)) g)
operations-Good names log (op ∷ ops) w g short stay room =
    let both : length (posted names op ++ log_of names ops)
        ≡ length (posted names op) + length (log_of names ops) =
      length-append (posted names op) (log_of names ops) in
    let grown = length-append log (posted names op) in
    let (w1, r1, g1) =
      operation-Good names log op w g short (ground arith) (omega (arith, room, both)) in
    let (w2, r2, g2) =
      operations-Good names (log ++ posted names op) ops w1 g1 short (ground arith)
        (omega (arith, room, both, grown)) in
    (
      w2,
      run-append (acts_of op) (schedule ops) w ∙ rw r1 r2,
      subst (λ l. Good names l w2) (append_assoc log (posted names op) (log_of names ops)) g2,
    )

abbrev newcomer : Bytes → Client
newcomer own = record { name = own; last_received_msg = 0; doing = free; message_win = [] }

newcomer_named :
    (names : List Bytes) (c : ℕ)
    → client_name (get_elem? (map newcomer names) c) ≡ get_elem? names c
newcomer_named [] c = refl
newcomer_named (own ∷ names) zero = refl
newcomer_named (own ∷ names) (suc c) = newcomer_named names c

newcomer-Shown :
    (names : List Bytes) (c : ℕ) (k : Client)
    → get_elem? (map newcomer names) c ≡ some k
    → Shown [] k
newcomer-Shown [] c k e = cc
newcomer-Shown (own ∷ names) zero k e =
    let same : newcomer own ≡ k = cc e in
    subst (Shown []) same (record { is_free = refl; seen = omega arith; shown = refl })
newcomer-Shown (own ∷ names) (suc c) k e = newcomer-Shown names c k e

opened-Good : (names : List Bytes) → Good names [] (opened names)
unfolding opened
opened-Good names = record {
  holds = record {
    rest = replicate max_messages (record { name = []; text = [] });
    memory = refl;
    size = refl;
    counted = refl;
  };
  named = newcomer_named names;
  each = newcomer-Shown names;
}

-- When a hundred messages have been posted so, the next one is written behind the memory of the messages.
pub run-full :
    (names : List Bytes) (ops : List Operation) (c : ℕ) (own input : Bytes)
    → get_elem? names c ≡ some own
    → all_fit names ≡ true
    → all_stay ops ≡ true
    → length (log_of names ops) ≡ max_messages
    → stays (posts c input) ≡ true
    → run (schedule ops ++ acts_of (posts c input)) (opened names) ≡ none
run-full names ops c own input e short stay full here =
    let (w, r, g) =
      operations-Good names [] ops (opened names) (opened-Good names) short stay
        (omega (arith, full)) in
    let (k, at, same) = some_name (get_elem? w.clients c) own (g.named c ∙ e) in
    run-append (schedule ops) (acts_of (posts c input)) (opened names)
    ∙ rw r (
        posts_over names (log_of names ops) w c k g at input (ground arith)
          (posts_fit names c own k.name input short e same here) full)
