-- ===== src/Posix/Rules.antt =====
-- A rule for each call of `home_work.Posix`.
use home_work.Base.{
  ℕ, suc, ◌<◌, ◌≡◌, ap, ◌∙◌, List, [], ◌∷◌, Option, none, some, Bool, true, false, length, arith,
  if◌then◌else◌, take,
}
use home_work.Libc.{Bytes}
use home_work.Posix.{
  Answer, Call, Event, did, got, closed, shown, Process, Run, done, exited, blocked, fault,
  out_of_fuel, Program, pure, note, ask, first_answer, open_with, succeeds, receive, erase_one,
  close, close_all, show_text, exit, give_up, check, open_or_give_up, recv, out_of_rounds,
}
use home_work.Posix.Ensures.{
  Ensures, Stage, Spends, none_of, one_of, IsQuiet, quiet_did, quiet_closed, Clean, Waits, Triple,
  ◌then_do◌,
}

spend : {n m : ℕ} → Spends n m → (k : ℕ) → suc k < n → k < m
spend none_of k h = omega arith
spend one_of k h = omega arith

pub erase_one_head : (fd : ℕ) (fds : List ℕ) → erase_one fd (fd ∷ fds) ≡ fds
erase_one_head fd fds = ground arith

module _ (Good : List Event → Type 0) where
  first_answer-ends :
      {n m : ℕ} {ds : List ℕ} (s : Spends n m) (left : List Answer) (p : Process)
      → p.descriptors ≡ ds
      → Good p.log
      → length left < n
      → Ensures (λ _. Stage Good m ds) (Clean Good) (Waits Good) (first_answer left p)
  first_answer-ends s [] p d g f = g
  first_answer-ends s (a ∷ left) p d g f = record {
    open_ones = d;
    logged = g;
    fuelled = spend s (length left) f;
  }

  pub ask-Triple :
      {n m : ℕ} {ds : List ℕ} {G : List Event → Type 0} (e : Event)
      → Spends n m
      → ((l : List Event) → G l → Good (e ∷ l))
      → Triple Good (Stage G n ds) (λ _. Stage Good m ds) (ask e)
  unfolding ask
  ask-Triple e s logs = record {
    ends =
        λ p h. first_answer-ends s p.answers (note e p) h.open_ones (logs p.log h.logged) h.fuelled;
  }

  pub pure-Triple :
      {A : Type 0} {pre : Process → Type 0} {P : A → Process → Type 0} {a : A}
      → ((p : Process) → pre p → P a p)
      → Triple Good pre P (pure a)
  pure-Triple h = record { ends = h }

  pub show_text-Triple :
      {n : ℕ} {ds : List ℕ} {G : List Event → Type 0} (b : Bytes)
      → ((l : List Event) → G l → G (shown b ∷ l))
      → Triple Good (Stage G n ds) (λ _. Stage G n ds) (show_text b)
  show_text-Triple b logs = record {
    ends = λ p h. record {
      open_ones = h.open_ones;
      logged = logs p.log h.logged;
      fuelled = h.fuelled;
    };
  }

  pub close-Triple :
      {n : ℕ} {ds : List ℕ} {G : List Event → Type 0} {fd : ℕ}
      → ((l : List Event) → G l → G (closed fd ∷ l))
      → Triple Good (Stage G n (fd ∷ ds)) (λ _. Stage G n ds) (close fd)
  unfolding close
  close-Triple {ds = ds} {fd = fd} logs = record {
    ends = λ p h. record {
      open_ones = ap (erase_one fd) h.open_ones ∙ erase_one_head fd ds;
      logged = logs p.log h.logged;
      fuelled = h.fuelled;
    };
  }

module _ {Good : List Event → Type 0} {C : Type 0} {P : C → Process → Type 0} where
  pub if-Triple :
      {pre : Process → Type 0} {m k : Program C} (b : Bool)
      → Triple Good pre P m
      → Triple Good pre P k
      → Triple Good pre P (if b then m else k)
  if-Triple true first second = first
  if-Triple false first second = second

  pub option-Triple :
      {A : Type 0} (pre : Option A → Process → Type 0) {m : Program C} {k : A → Program C}
      (o : Option A)
      → Triple Good (pre none) P m
      → ((a : A) → Triple Good (pre (some a)) P (k a))
      → Triple Good (pre o) P (λ p. elim o [ none ↦ m p | some a ↦ k a p ])
  option-Triple pre none first second = record { ends = first.ends }
  option-Triple pre (some a) first second = record { ends = (second a).ends }

abbrev pub opened_too : Option ℕ → List ℕ → List ℕ
opened_too none ds = ds
opened_too (some fd) ds = fd ∷ ds

module _ {Good : List Event → Type 0}
    (quiet : (e : Event) (l : List Event) → IsQuiet e → Good l → Good (e ∷ l)) where
  pub close_all-Triple :
      {n : ℕ} (fds : List ℕ) → Triple Good (Stage Good n fds) (λ _. Stage Good n []) (close_all fds)
  unfolding close_all
  close_all-Triple [] = pure-Triple Good λ p h. h
  close_all-Triple (fd ∷ fds) =
      close-Triple Good (λ l. quiet (closed fd) l quiet_closed) then_do λ _. close_all-Triple fds

  pub give_up-Triple :
      {A : Type 0} {P : A → Process → Type 0} {n : ℕ} (fds : List ℕ)
      → Triple Good (Stage Good n fds) P (give_up fds)
  unfolding give_up exit
  give_up-Triple fds =
      close_all-Triple fds then_do λ _. record { ends = λ p h. (h.open_ones, h.logged) }

  pub succeeds-Triple :
      {n m : ℕ} {ds : List ℕ} {G : List Event → Type 0} (e : Event)
      → Spends n m
      → ((l : List Event) → G l → Good (e ∷ l))
      → Triple Good (Stage G n ds) (λ _. Stage Good m ds) (succeeds e)
  unfolding succeeds
  succeeds-Triple e s logs = ask-Triple Good e s logs then_do λ _. pure-Triple Good λ p h. h

  pub check-Triple :
      {n m : ℕ} {fds : List ℕ} {G : List Event → Type 0} (e : Event)
      → Spends n m
      → ((l : List Event) → G l → Good (e ∷ l))
      → Triple Good (Stage G n fds) (λ _. Stage Good m fds) (check fds e)
  unfolding check
  check-Triple {fds = fds} e s logs = succeeds-Triple e s logs then_do λ ok.
      if-Triple ok (pure-Triple Good λ p h. h) (give_up-Triple fds)

  pub open_with-Triple :
      {n m : ℕ} {ds : List ℕ} (c : Call)
      → Spends n m
      → Triple Good (Stage Good n ds) (λ o. Stage Good m (opened_too o ds)) (open_with c)
  unfolding open_with
  open_with-Triple c s = ask-Triple Good (did c) s (λ l. quiet (did c) l quiet_did) then_do λ a.
      option-Triple (λ _. Stage Good _ _) a.value (record { ends = λ p h. h })
        λ fd. record {
          ends = λ p h. record {
            open_ones = ap (◌∷◌ fd) h.open_ones;
            logged = h.logged;
            fuelled = h.fuelled;
          };
        }

  pub open_or_give_up-Triple :
      {n m : ℕ} {fds : List ℕ} (c : Call)
      → Spends n m
      → Triple Good (Stage Good n fds) (λ fd. Stage Good m (fd ∷ fds)) (open_or_give_up fds c)
  unfolding open_or_give_up
  open_or_give_up-Triple {m = m} {fds = fds} c s = open_with-Triple c s then_do λ o.
      option-Triple (λ x. Stage Good m (opened_too x fds)) o (give_up-Triple fds)
        λ fd. record { ends = λ p h. h }

abbrev pub Received :
    (List Event → Type 0)
    → (Bytes → List Event → Type 0)
    → ℕ
    → List ℕ
    → Option Bytes
    → Process
    → Type 0
Received Good Owing n ds none = Stage Good n ds
Received Good Owing n ds (some b) = Stage (Owing b) n ds

module _ {Good : List Event → Type 0}
    (quiet : (e : Event) (l : List Event) → IsQuiet e → Good l → Good (e ∷ l))
    (Owing : Bytes → List Event → Type 0)
    (owes : (b : Bytes) (l : List Event) → Good l → Owing b (got b ∷ l)) where
  pub receive-Triple :
      {n m : ℕ} {ds : List ℕ} (size : ℕ)
      → Spends n m
      → Triple Good (Stage Good n ds) (Received Good Owing m ds) (receive size)
  unfolding receive
  receive-Triple size s =
      ask-Triple Good (did (recv size)) s (λ l. quiet (did (recv size)) l quiet_did) then_do λ a.
      option-Triple (λ _. Stage Good _ _) a.value (record { ends = λ p h. h })
        λ n. record {
          ends = λ p h. record {
            open_ones = h.open_ones;
            logged = owes (take size a.payload) p.log h.logged;
            fuelled = h.fuelled;
          };
        }

-- A loop that is entered with a bound above the answers that are left never uses it up.
pub no_rounds-Triple :
    {Good G : List Event → Type 0} {ds : List ℕ} {A : Type 0} {P : A → Process → Type 0}
    → Triple Good (Stage G 0 ds) P out_of_rounds
no_rounds-Triple = record { ends = λ p h. omega (arith, h.fuelled) }

module _ {A : Type 0} where
  loosened :
      (Good G : List Event → Type 0) (n : ℕ) (ds : List ℕ) (r : Run A)
      → Ensures (λ _. Stage G n ds) (Clean Good) (Waits Good) r
      → Ensures (λ _. Stage G (suc n) ds) (Clean Good) (Waits Good) r
  loosened Good G n ds (done a p) k = record {
    open_ones = k.open_ones;
    logged = k.logged;
    fuelled = omega (arith, k.fuelled);
  }
  loosened Good G n ds (exited a p) k = k
  loosened Good G n ds (blocked p) k = k
  loosened Good G n ds fault k = k
  loosened Good G n ds out_of_fuel k = k

  pub weaken :
      {Good G : List Event → Type 0} {n : ℕ} {ds : List ℕ} {pre : Process → Type 0} {m : Program A}
      → Triple Good pre (λ _. Stage G n ds) m
      → Triple Good pre (λ _. Stage G (suc n) ds) m
  weaken {Good = Good} {G = G} {n = n} {ds = ds} {m = m} h = record {
    ends = λ p k. loosened Good G n ds (m p) (h.ends p k);
  }

pub exit-Triple :
    {Good : List Event → Type 0} {n : ℕ} {A : Type 0} {P : A → Process → Type 0} (status : ℕ)
    → Triple Good (Stage Good n []) P (exit status)
unfolding exit
exit-Triple status = record { ends = λ p h. (h.open_ones, h.logged) }

-- A program that is watched more closely than is asked.
module _ {H Good : List Event → Type 0} (more : (l : List Event) → H l → Good l) where
  relaxed :
      {A : Type 0} (P : A → Process → Type 0) (r : Run A)
      → Ensures P (Clean H) (Waits H) r
      → Ensures P (Clean Good) (Waits Good) r
  relaxed P (done a p) k = k
  relaxed P (exited n p) k = (k.0, more p.log (k.1))
  relaxed P (blocked p) k = more p.log k
  relaxed P fault k = k
  relaxed P out_of_fuel k = k

  pub relax :
      {A : Type 0} {pre : Process → Type 0} {P : A → Process → Type 0} {m : Program A}
      → Triple H pre P m
      → Triple Good pre P m
  relax {P = P} {m = m} t = record { ends = λ p h. relaxed P (m p) (t.ends p h) }
