-- ===== src/Counter/Invariant.antt =====
-- The mutex of "11 work/task2.c", and what the counter is at each point.
use home_work.Base.{
  ℕ, suc, ◌+◌, ◌-◌, sym, ◌∙◌, ◌*◌, ◌≤◌, ◌<◌, ◌≡◌, refl, Bool, true, false, ◌&&◌, ◌||◌, Option, none,
  some, arith,
}
use mathlib.Core.Bool.{and_comm, or_comm}
use home_work.Counter.{
  Memory, Pc, head, locked, stored, loaded, finished, Move, lock, load, store, unlock, leave,
  System,
}

-- The additions that a thread has made.
abbrev pub completed : (rounds : ℕ) → Pc → ℕ
completed rounds (head i) = i
completed rounds (locked i) = i
completed rounds (loaded i value) = i
completed rounds (stored i) = suc i
completed rounds finished = rounds

abbrev pub critical : Pc → Bool
critical (head i) = false
critical (locked i) = true
critical (loaded i value) = true
critical (stored i) = true
critical finished = false

abbrev pub Within : (rounds : ℕ) → Pc → Type 0
Within rounds (head i) = i ≤ rounds
Within rounds (locked i) = i < rounds
Within rounds (loaded i value) = i < rounds
Within rounds (stored i) = i < rounds
Within rounds finished = Unit {0}

-- What a thread has read is still the counter.
abbrev pub Fresh : (counter : ℕ) → Pc → Type 0
Fresh counter (head i) = Unit {0}
Fresh counter (locked i) = Unit {0}
Fresh counter (loaded i value) = value ≡ counter
Fresh counter (stored i) = Unit {0}
Fresh counter finished = Unit {0}

pub record Inv (rounds : ℕ) (m : Memory) (p q : Pc) : Type 0 where
  pub total : m.counter ≡ completed rounds p + completed rounds q
  pub mutex : m.held ≡ (critical p || critical q)
  pub one_inside : (critical p && critical q) ≡ false
  pub within_p : Within rounds p
  pub within_q : Within rounds q
  pub fresh_p : Fresh m.counter p
  pub fresh_q : Fresh m.counter q

pub swapped : {rounds : ℕ} {m : Memory} {p q : Pc} → Inv rounds m p q → Inv rounds m q p
swapped {p = p} {q = q} inv = record {
  total = omega (arith, inv.total);
  mutex = inv.mutex ∙ or_comm (critical p) (critical q);
  one_inside = and_comm (critical q) (critical p) ∙ inv.one_inside;
  within_p = inv.within_q;
  within_q = inv.within_p;
  fresh_p = inv.fresh_q;
  fresh_q = inv.fresh_p;
}

Fresh-outside :
    (counter counter' : ℕ) (q : Pc) → critical q ≡ false → Fresh counter q → Fresh counter' q
Fresh-outside n n' (head i) e h = tt
Fresh-outside n n' (locked i) e h = tt
Fresh-outside n n' (loaded i value) e h = cc
Fresh-outside n n' (stored i) e h = tt
Fresh-outside n n' finished e h = tt

-- A step of one thread keeps the invariant, whatever the other is at.
pub Move-Inv :
    {rounds : ℕ} {m m' : Memory} {p p' q : Pc}
    → Move rounds m p m' p'
    → Inv rounds m p q
    → Inv rounds m' p' q
Move-Inv (lock lt free) inv = record {
  total = inv.total;
  mutex = refl;
  one_inside = sym inv.mutex ∙ free;
  within_p = lt;
  within_q = inv.within_q;
  fresh_p = tt;
  fresh_q = inv.fresh_q;
}
Move-Inv load inv = record {
  total = inv.total;
  mutex = inv.mutex;
  one_inside = inv.one_inside;
  within_p = inv.within_p;
  within_q = inv.within_q;
  fresh_p = refl;
  fresh_q = inv.fresh_q;
}
Move-Inv {m = m} {q = q} (store {value = value}) inv = record {
  total = omega (arith, inv.total, inv.fresh_p);
  mutex = inv.mutex;
  one_inside = inv.one_inside;
  within_p = inv.within_p;
  within_q = inv.within_q;
  fresh_p = tt;
  fresh_q = Fresh-outside m.counter (value + 1) q inv.one_inside inv.fresh_q;
}
Move-Inv unlock inv = record {
  total = inv.total;
  mutex = sym inv.one_inside;
  one_inside = refl;
  within_p = inv.within_p;
  within_q = inv.within_q;
  fresh_p = tt;
  fresh_q = inv.fresh_q;
}
Move-Inv (leave le) inv = record {
  total = omega (arith, inv.total, inv.within_p);
  mutex = inv.mutex;
  one_inside = refl;
  within_p = tt;
  within_q = inv.within_q;
  fresh_p = tt;
  fresh_q = inv.fresh_q;
}

-- The steps that a thread still makes.
abbrev pub left : (rounds : ℕ) → Pc → ℕ
left rounds (head i) = 4 * (rounds - i) + 1
left rounds (locked i) = 4 * (rounds - i)
left rounds (loaded i value) = 4 * (rounds - i) - 1
left rounds (stored i) = 4 * (rounds - i) - 2
left rounds finished = 0

abbrev pub unprinted : Option ℕ → ℕ
unprinted none = 1
unprinted (some n) = 0

abbrev pub system_left : (rounds : ℕ) → System → ℕ
system_left rounds s = left rounds s.first + left rounds s.second + unprinted s.printed

pub Move-left :
    {rounds : ℕ} {m m' : Memory} {p p' q : Pc}
    → Move rounds m p m' p'
    → Inv rounds m p q
    → left rounds p ≡ suc (left rounds p')
Move-left (lock lt free) inv = omega arith
Move-left load inv = omega (arith, inv.within_p)
Move-left store inv = omega (arith, inv.within_p)
Move-left unlock inv = omega (arith, inv.within_p)
Move-left (leave le) inv = omega (arith, inv.within_p)

-- What is printed is the sum of all additions, and printing is the last step.
abbrev pub PrintedRight : (rounds : ℕ) → System → Option ℕ → Type 0
PrintedRight rounds s none = Unit {0}
PrintedRight rounds s (some n) =
    (n ≡ rounds + rounds) × (s.first ≡ finished) × (s.second ≡ finished)

pub record IsConsistent (rounds steps : ℕ) (s : System) : Type 0 where
  pub inv : Inv rounds s.memory s.first s.second
  pub account : steps + system_left rounds s ≡ 8 * rounds + 3
  pub output : PrintedRight rounds s s.printed
