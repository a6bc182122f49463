-- ===== src/Counter/Progress.antt =====
-- The runs of "11 work/task2.c": the mutex, the steps that are left, and the number that is printed.
use home_work.Base.{
  ℕ, suc, ◌+◌, ◌*◌, ◌≤◌, ◌≡◌, ◌≢◌, refl, ap, ◌∙◌, true, false, ◌&&◌, ◌||◌, Option, none, some,
  arith, Bool-cases, ◌⊎◌, inl, inr, ltb,
}
use home_work.Counter.{
  Memory, Pc, head, locked, stored, loaded, finished, Move, lock, load, store, unlock, leave,
  System, Step, first_moves, second_moves, print, Reach, start, later,
}
use home_work.Counter.Invariant.{
  completed, critical, Inv, swapped, Move-Inv, unprinted, Move-left, PrintedRight, IsConsistent,
}

not-Move-finished : {rounds : ℕ} {m m' : Memory} {p p' : Pc} → Move rounds m p m' p' → p ≢ finished
not-Move-finished (lock lt free) e = cc
not-Move-finished load e = cc
not-Move-finished store e = cc
not-Move-finished unlock e = cc
not-Move-finished (leave le) e = cc

unprinted_first :
    {rounds : ℕ} (s t : System) {m : Memory} {p : Pc} (o : Option ℕ)
    → Move rounds s.memory s.first m p
    → PrintedRight rounds s o
    → PrintedRight rounds t o
unprinted_first s t none mv h = tt
unprinted_first s t (some n) mv h = absurd (not-Move-finished mv h.1)

unprinted_second :
    {rounds : ℕ} (s t : System) {m : Memory} {p : Pc} (o : Option ℕ)
    → Move rounds s.memory s.second m p
    → PrintedRight rounds s o
    → PrintedRight rounds t o
unprinted_second s t none mv h = tt
unprinted_second s t (some n) mv h = absurd (not-Move-finished mv h.2)

both_finished :
    {rounds : ℕ} (s : System)
    → Inv rounds s.memory s.first s.second
    → s.first ≡ finished
    → s.second ≡ finished
    → s.memory.counter ≡ rounds + rounds
both_finished {rounds} s inv e e' =
    inv.total
    ∙ ap (λ p. completed rounds p + completed rounds s.second) e
    ∙ ap (λ p. rounds + completed rounds p) e'

Step-IsConsistent :
    {rounds steps : ℕ} {s t : System}
    → Step rounds s t
    → IsConsistent rounds steps s
    → IsConsistent rounds (suc steps) t
Step-IsConsistent {s = s} (first_moves {m = m} {p = p} mv) c = record {
  inv = Move-Inv mv c.inv;
  account = omega (arith, c.account, Move-left mv c.inv);
  output = unprinted_first s (record s { memory = m; first = p }) s.printed mv c.output;
}
Step-IsConsistent {s = s} (second_moves {m = m} {p = p} mv) c = record {
  inv = swapped (Move-Inv mv (swapped c.inv));
  account = omega (arith, c.account, Move-left mv (swapped c.inv));
  output = unprinted_second s (record s { memory = m; second = p }) s.printed mv c.output;
}
Step-IsConsistent {rounds} {s = s} (print e e' Fresh) c = record {
  inv = c.inv;
  account = omega (arith, c.account, ap unprinted Fresh);
  output = (both_finished s c.inv e e', e, e');
}

pub Reach-IsConsistent :
    {rounds steps : ℕ} {s : System} → Reach rounds steps s → IsConsistent rounds steps s
Reach-IsConsistent {rounds} start = record {
  inv = record {
    total = refl;
    mutex = refl;
    one_inside = refl;
    within_p = omega arith;
    within_q = omega arith;
    fresh_p = tt;
    fresh_q = tt;
  };
  account = omega arith;
  output = tt;
}
Reach-IsConsistent (later r st) = Step-IsConsistent st (Reach-IsConsistent r)

abbrev Moves : ℕ → Memory → Pc → Type 0
Moves rounds m p = (m' : Memory) × (p' : Pc) × Move rounds m p m' p'

inside-Moves : (rounds : ℕ) (m : Memory) (p : Pc) → critical p ≡ true → Moves rounds m p
inside-Moves rounds m (head i) h = cc
inside-Moves rounds m (locked i) h = (_, _, load)
inside-Moves rounds m (loaded i value) h = (_, _, store)
inside-Moves rounds m (stored i) h = (_, _, unlock)
inside-Moves rounds m finished h = cc

outside-Moves :
    (rounds : ℕ) (m : Memory) (p : Pc)
    → critical p ≡ false
    → m.held ≡ false
    → (p ≡ finished) ⊎ Moves rounds m p
outside-Moves rounds m (head i) h free = elim (Bool-cases (ltb i rounds)) [
  | inl more ↦ inr (_, _, lock (ground arith) free)
  | inr done ↦ inr (_, _, leave (ground arith))
]
outside-Moves rounds m (locked i) h free = cc
outside-Moves rounds m (loaded i value) h free = cc
outside-Moves rounds m (stored i) h free = cc
outside-Moves rounds m finished h free = inl refl

-- A state that is left by no step has printed.
abbrev pub Goes : ℕ → System → Type 0
Goes rounds s = (t : System) × Step rounds s t

after_join :
    (rounds : ℕ) (s : System) (o : Option ℕ)
    → s.printed ≡ o
    → PrintedRight rounds s o
    → s.first ≡ finished
    → s.second ≡ finished
    → Goes rounds s ⊎ (s.printed ≡ some (rounds + rounds))
after_join rounds s none e h e1 e2 = inl (_, print e1 e2 e)
after_join rounds s (some n) e h e1 e2 = inr (e ∙ ap some h.0)

Goes-or_printed :
    {rounds steps : ℕ} (s : System)
    → IsConsistent rounds steps s
    → Goes rounds s ⊎ (s.printed ≡ some (rounds + rounds))
Goes-or_printed {rounds} s c = elim (Bool-cases (critical s.first)) [
  | inl h ↦ let (m, p, mv) = inside-Moves rounds s.memory s.first h in inl (_, first_moves mv)
  | inr out_first ↦ elim (Bool-cases (critical s.second)) [
    | inl h ↦ let (m, p, mv) = inside-Moves rounds s.memory s.second h in inl (_, second_moves mv)
    | inr out_second ↦
        let free : s.memory.held ≡ false =
          c.inv.mutex ∙ ap (λ b. b || critical s.second) out_first ∙ out_second in
        elim (outside-Moves rounds s.memory s.first out_first free) [
          | inr (m, p, mv) ↦ inl (_, first_moves mv)
          | inl e ↦ elim (outside-Moves rounds s.memory s.second out_second free) [
            | inr (m, p, mv) ↦ inl (_, second_moves mv)
            | inl e' ↦ after_join rounds s s.printed refl c.output e e'
          ]
        ]
  ]
]

-- In every state that the threads reach, in whatever order they run, at most one of them is between its lock
-- and its unlock, and the mutex is held exactly then.
pub Reach-one_inside :
    {rounds steps : ℕ} {s : System}
    → Reach rounds steps s
    → ((critical s.first && critical s.second) ≡ false)
      × (s.memory.held ≡ (critical s.first || critical s.second))
Reach-one_inside r = let c = Reach-IsConsistent r in (c.inv.one_inside, c.inv.mutex)

none_or_sum :
    (rounds : ℕ) (s : System) (o : Option ℕ)
    → PrintedRight rounds s o
    → (o ≡ none) ⊎ (o ≡ some (rounds + rounds))
none_or_sum rounds s none h = inl refl
none_or_sum rounds s (some k) h = inr (ap some h.0)

-- With a loop of `rounds` rounds, which is `loop_bound` in the source, and whatever the order in which the
-- threads run: nothing but the sum of all additions is ever printed; every run has made at most 8 * rounds +
-- 3 steps; and a state in which no step is possible has printed the sum, so that there is neither a deadlock
-- nor a run without an end.
pub Reach-ends :
    {rounds steps : ℕ} {s : System}
    → Reach rounds steps s
    → (steps ≤ 8 * rounds + 3)
      × ((s.printed ≡ none) ⊎ (s.printed ≡ some (rounds + rounds)))
      × (Goes rounds s ⊎ (s.printed ≡ some (rounds + rounds)))
Reach-ends {rounds} {s = s} r =
    let c = Reach-IsConsistent r in
    (omega (arith, c.account), none_or_sum rounds s s.printed c.output, Goes-or_printed s c)
