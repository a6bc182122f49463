-- ===== src/SharedChat/States.antt =====
-- "14 work/task2" between whole operations: the memory begins with a log, and each window shows what its
-- client has read of it.
use home_work.Base.{
  ℕ, zero, suc, ◌+◌, ◌<◌, ◌≤◌, List, [], ◌∷◌, ◌++◌, Option, none, some, ◌≡◌, refl, get_elem?, set,
  length, take, arith, ap, sym, ◌∙◌, get_elem?-set_self, length-append,
}
use mathlib.Core.Path.{subst}
use home_work.Libc.{Bytes}
use home_work.SharedChat.{
  Message, SharedMemory, max_messages, free, Client, Chat, Act, ran, act, step, run,
}
use home_work.SharedChat.Loops.{foreign}

-- A client between its operations has shown what it has read of the log.
pub record Shown (log : List Message) (k : Client) : Type 0 where
  pub is_free : k.doing ≡ free
  pub seen : k.last_received_msg ≤ length log
  pub shown : foreign k.name k.message_win ≡ foreign k.name (take k.last_received_msg log)

abbrev pub client_name : Option Client → Option Bytes
client_name none = none
client_name (some k) = some k.name

-- The memory begins with the log.
pub record Holds (log : List Message) (s : SharedMemory) : Type 0 where
  pub rest : List Message
  pub memory : s.messages ≡ log ++ rest
  pub size : length log + length rest ≡ max_messages
  pub counted : s.client_count ≡ length log

pub record Good (names : List Bytes) (log : List Message) (w : Chat) : Type 0 where
  pub holds : Holds log w.shm
  pub named : (c : ℕ) → client_name (get_elem? w.clients c) ≡ get_elem? names c
  pub each : (c : ℕ) (k : Client) → get_elem? w.clients c ≡ some k → Shown log k

pub take-front :
    (n : ℕ) (log more : List Message) → n ≤ length log → take n (log ++ more) ≡ take n log
take-front zero log more h = refl
take-front (suc n) [] more h = absurd (omega (arith, h))
take-front (suc n) (x ∷ log) more h = ap (λ xs. x ∷ xs) (take-front n log more (omega (arith, h)))

pub take-length : (log : List Message) → take (length log) log ≡ log
take-length [] = refl
take-length (x ∷ log) = ap (λ xs. x ∷ xs) (take-length log)

-- More in the log changes nothing for those who have not read it.
pub Shown-more : (log more : List Message) (k : Client) → Shown log k → Shown (log ++ more) k
Shown-more log more k h = record {
  is_free = h.is_free;
  seen = omega (arith, h.seen, length-append log more);
  shown = h.shown ∙ ap (foreign k.name) (sym (take-front k.last_received_msg log more h.seen));
}

pub inside : (ks : List Client) (c : ℕ) (k : Client) → get_elem? ks c ≡ some k → c < length ks
inside [] c k e = cc
inside (x ∷ ks) zero k e = omega arith
inside (x ∷ ks) (suc c) k e = omega (arith, inside ks c k e)

set-set : (ks : List Client) (c : ℕ) (a b : Client) → set (set ks c a) c b ≡ set ks c b
set-set [] c a b = refl
set-set (x ∷ ks) zero a b = refl
set-set (x ∷ ks) (suc c) a b = ap (λ xs. x ∷ xs) (set-set ks c a b)

step-ran :
    (c : ℕ) (a : Act) (w : Chat) {k k' : Client} {s : SharedMemory}
    → get_elem? w.clients c ≡ some k
    → act a k.doing w.shm k ≡ ran s k'
    → step c a w ≡ some (record { shm = s; clients = set w.clients c k' })
unfolding step
step-ran c a w at e = rw (at, step) (rw e refl)

-- Two acts of one client.
pub two_acts :
    (c : ℕ) (a b : Act) (w : Chat) {k k' k'' : Client} {s s' : SharedMemory}
    → get_elem? w.clients c ≡ some k
    → act a k.doing w.shm k ≡ ran s k'
    → act b k'.doing s k' ≡ ran s' k''
    → run ((c, a) ∷ (c, b) ∷ []) w ≡ some (record { shm = s'; clients = set w.clients c k'' })
unfolding run
two_acts c a b w {k = k} {k' = k'} {k'' = k''} {s = s} {s' = s'} at e e' =
    let next : get_elem? (set w.clients c k') c ≡ some k' =
      get_elem?-set_self w.clients c k' (inside w.clients c k at) in
    rw (step-ran c a w at e) (
      rw (step-ran c b (record { shm = s; clients = set w.clients c k' }) next e')
        (ap (λ ks. some (record { shm = s'; clients = ks })) (set-set w.clients c k' k'')))

set_named :
    (ks : List Client) (c : ℕ) (k k' : Client) (d : ℕ)
    → get_elem? ks c ≡ some k
    → k'.name ≡ k.name
    → client_name (get_elem? (set ks c k') d) ≡ client_name (get_elem? ks d)
set_named [] c k k' d at e = refl
set_named (x ∷ ks) zero k k' zero at e = ap some e ∙ ap client_name (sym at)
set_named (x ∷ ks) zero k k' (suc d) at e = refl
set_named (x ∷ ks) (suc c) k k' zero at e = refl
set_named (x ∷ ks) (suc c) k k' (suc d) at e = set_named ks c k k' d at e

set_each :
    (Right : Client → Type 0) (ks : List Client) (c : ℕ) (k' : Client) (d : ℕ) (k : Client)
    → Right k'
    → ((d : ℕ) (k : Client) → get_elem? ks d ≡ some k → Right k)
    → get_elem? (set ks c k') d ≡ some k
    → Right k
set_each Right [] c k' d k new old at = old d k at
set_each Right (x ∷ ks) zero k' zero k new old at =
    let same : k' ≡ k = cc at in subst Right same new
set_each Right (x ∷ ks) zero k' (suc d) k new old at = old (suc d) k at
set_each Right (x ∷ ks) (suc c) k' zero k new old at = old zero k at
set_each Right (x ∷ ks) (suc c) k' (suc d) k new old at =
    set_each Right ks c k' d k new (λ d k. old (suc d) k) at

-- One client and the memory have changed, and the log has grown by `more`.
pub changed-Good :
    {names : List Bytes} {log : List Message} (more : List Message) {w : Chat} (c : ℕ)
    {k k' : Client} {s : SharedMemory}
    → Good names log w
    → get_elem? w.clients c ≡ some k
    → k'.name ≡ k.name
    → Holds (log ++ more) s
    → Shown (log ++ more) k'
    → Good names (log ++ more) (record { shm = s; clients = set w.clients c k' })
changed-Good {log = log} more {w = w} c {k = k} {k' = k'} g at same holds new = record {
  holds = holds;
  named = λ d. set_named w.clients c k k' d at same ∙ g.named d;
  each = λ d j.
      set_each (Shown (log ++ more)) w.clients c k' d j new
        (λ d j at. Shown-more log more j (g.each d j at));
}

pub no_name : (o : Option Client) → client_name o ≡ none → o ≡ none
no_name none e = refl
no_name (some k) e = cc

pub some_name :
    (o : Option Client) (own : Bytes)
    → client_name o ≡ some own
    → (k : Client) × (o ≡ some k) × (k.name ≡ own)
some_name none own e = cc
some_name (some k) own e = (k, refl, cc e)
