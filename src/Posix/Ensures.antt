-- ===== src/Posix/Ensures.antt =====
-- Statements about the end of a run, the point at which it waits included, and rules for programs.
use home_work.Base.{ℕ, suc, ◌<◌, ◌≡◌, refl, List, [], length}
use home_work.Posix.{
  start, Answer, Call, Event, did, closed, Process, Run, done, exited, blocked, fault, out_of_fuel,
  Program, and_then, ◌>>=◌,
}

-- A normal end with `P`, an exit with `E`, or a wait with `W`; no fault, and no lack of fuel.
abbrev pub Ensures :
    {A : Type 0} → (A → Process → Type 0) → (Process → Type 0) → (Process → Type 0) → Run A → Type 0
Ensures P E W (done a p) = P a p
Ensures P E W (exited n p) = E p
Ensures P E W (blocked p) = W p
Ensures P E W fault = ⊥
Ensures P E W out_of_fuel = ⊥

-- `ds` are the open descriptors, the log has `G`, and fewer than `n` answers are left.
pub record Stage (G : List Event → Type 0) (n : ℕ) (ds : List ℕ) (p : Process) : Type 0 where
  pub open_ones : p.descriptors ≡ ds
  pub logged : G p.log
  pub fuelled : length p.answers < n

pub start-Stage :
    {G : List Event → Type 0} {n : ℕ} {answers : List Answer}
    → G []
    → length answers < n
    → Stage G n [] (start answers)
start-Stage g h = record { open_ones = refl; logged = g; fuelled = h }

-- A rule gives the call's answer up, or counts it.
pub data Spends : ℕ → ℕ → Type 0 where
  none_of : {n : ℕ} → Spends n n
  one_of : {n : ℕ} → Spends (suc n) n

-- Events that no message log counts.
pub data IsQuiet : Event → Type 0 where
  quiet_did : {c : Call} → IsQuiet (did c)
  quiet_closed : {fd : ℕ} → IsQuiet (closed fd)

abbrev pub Clean : (List Event → Type 0) → Process → Type 0
Clean G p = (p.descriptors ≡ []) × G p.log

abbrev pub Waits : (List Event → Type 0) → Process → Type 0
Waits G p = G p.log

module _ (Good : List Event → Type 0) where
  -- From `pre` the program ends in `post`, exits with everything closed, or waits.
  pub record Triple {A : Type 0} (pre : Process → Type 0) (post : A → Process → Type 0)
      (m : Program A) : Type 0 where
    pub ends : (p : Process) → pre p → Ensures post (Clean Good) (Waits Good) (m p)

module _ {Good : List Event → Type 0} {A C : Type 0} {P : A → Process → Type 0}
    {Q : C → Process → Type 0} where
  and_then-Ensures :
      (m : Run A) (k : A → Program C)
      → Ensures P (Clean Good) (Waits Good) m
      → ((a : A) → Triple Good (P a) Q (k a))
      → Ensures Q (Clean Good) (Waits Good) (and_then m k)
  and_then-Ensures (done a p) k h next = (next a).ends p h
  and_then-Ensures (exited n p) k h next = h
  and_then-Ensures (blocked p) k h next = h
  and_then-Ensures fault k h next = h
  and_then-Ensures out_of_fuel k h next = h

  infixr 4 ◌then_do◌
  pub ◌then_do◌ :
      {pre : Process → Type 0} {m : Program A} {k : A → Program C}
      → Triple Good pre P m
      → ((a : A) → Triple Good (P a) Q (k a))
      → Triple Good pre Q (m >>= k)
  ◌then_do◌ {m = m} {k = k} first next = record {
    ends = λ p h. and_then-Ensures (m p) k (first.ends p h) next;
  }
