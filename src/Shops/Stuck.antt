-- ===== src/Shops/Stuck.antt =====
-- The lost wake-up of "11 work/task3.c": a buyer sees a shop empty, lets go of its mutex, and waits only
-- after the loader has filled the shop and signalled.
use home_work.Base.{
  ℕ, ◌+◌, ◌≤◌, ◌<◌, ◌≡◌, ◌≢◌, refl, sym, ap, ◌∙◌, false, List, some, length, get_elem?, set, arith,
  get_elem?-set_ne,
}
use home_work.Shops.{
  waiting, asleep, finished, Buyer, over, World, Signal, unheard, wakes, BuyerStep, see_empty, wait,
  wake, buy, go_on, Step, buyer_moves, leave, start_round, stop, load, pass, rest, Runs, here,
  later,
}

-- A buyer who has left, or waits at a shop that the loader does not fill.
pub data Settled (capacity : List ℕ) (b : Buyer) : Type 0 where
  gone : b.pc ≡ finished → Settled capacity b
  unheeded :
      (i stock : ℕ)
      → b.pc ≡ waiting i
      → get_elem? capacity i ≡ some stock
      → 5000 ≤ stock
      → Settled capacity b

abbrev pub AllSettled : List ℕ → List Buyer → Type 0
AllSettled capacity buyers = (k : ℕ) (b : Buyer) → get_elem? buyers k ≡ some b → Settled capacity b

not-Settled :
    {capacity capacity' : List ℕ} {b b' : Buyer}
    → BuyerStep false capacity b capacity' b'
    → ¬ Settled capacity b
not-Settled (see_empty e) (gone h) = cc
not-Settled (see_empty e) (unheeded i stock h e' le) = cc
not-Settled wait (gone h) = cc
not-Settled wait (unheeded i stock h e' le) = cc
not-Settled (wake e) s = cc
not-Settled (buy e lt) (gone h) = cc
not-Settled (buy e lt) (unheeded i stock h e' le) = cc
not-Settled (go_on lt) (gone h) = cc
not-Settled (go_on lt) (unheeded i stock h e' le) = cc

not-Settled_asleep :
    {capacity : List ℕ} {need i : ℕ} → ¬ Settled capacity (record { need = need; pc = asleep i })
not-Settled_asleep (gone h) = cc
not-Settled_asleep (unheeded i stock h e le) = cc

not-Settled_waiting :
    {capacity : List ℕ} {b : Buyer} (i : ℕ) {stock : ℕ}
    → b.pc ≡ waiting i
    → get_elem? capacity i ≡ some stock
    → stock < 5000
    → ¬ Settled capacity b
not-Settled_waiting i w e lt (gone h) = cc
not-Settled_waiting i {stock} w e lt (unheeded j stock' h e' le) =
    let ij : i ≡ j = cc (w, h) in let same : stock ≡ stock' = cc (e, e', ij) in omega arith

Signal-Settled :
    {capacity : List ℕ} {i stock : ℕ} {buyers buyers' : List Buyer}
    → Signal i buyers buyers'
    → get_elem? capacity i ≡ some stock
    → stock < 5000
    → AllSettled capacity buyers
    → buyers' ≡ buyers
Signal-Settled (unheard h) e lt all = refl
Signal-Settled {i = i} (wakes k b at w) e lt all =
    absurd (not-Settled_waiting i w e lt (all k b at))

Settled-filled :
    {capacity : List ℕ} (i : ℕ) {stock : ℕ} {b : Buyer} (v : ℕ)
    → get_elem? capacity i ≡ some stock
    → stock < 5000
    → Settled capacity b
    → Settled (set capacity i v) b
Settled-filled i v e lt (gone h) = gone h
Settled-filled {capacity} i {stock} v e lt (unheeded j stock' h e' le) =
    let apart : i ≢ j = λ q. absurd (different q) in
    unheeded j stock' h (get_elem?-set_ne capacity {i = i} {j = j} v apart ∙ e') le
  where
    different : i ≡ j → ⊥
    different q = let same : stock ≡ stock' = cc (e, e', q) in omega arith

-- The buyers stand still, and the loader goes round.
pub record StandsStill (w : World) (w' : World) : Type 0 where
  pub buyers_same : w'.buyers ≡ w.buyers
  pub satisfied_same : w'.satisfied ≡ w.satisfied
  pub not_over : w'.loader ≢ over
  pub settled : AllSettled w'.capacity w'.buyers

module _ (w : World) (some_left : w.satisfied ≢ length w.buyers) where
  Step-StandsStill : {u v : World} → Step false u v → StandsStill w u → StandsStill w v
  Step-StandsStill (buyer_moves k {b = b} e st) h = absurd (not-Settled st (h.settled k b e))
  Step-StandsStill (leave k i e) h = absurd (not-Settled_asleep (h.settled k _ e))
  Step-StandsStill (start_round e ne) h = record {
    buyers_same = h.buyers_same;
    satisfied_same = h.satisfied_same;
    not_over = λ q. cc;
    settled = h.settled;
  }
  Step-StandsStill (stop e eq) h =
      absurd (some_left (sym h.satisfied_same ∙ eq ∙ ap length h.buyers_same))
  Step-StandsStill {u = u} (load {i = i} {stock = stock} e at lt sg) h =
      let same = Signal-Settled sg at lt h.settled in
      record {
        buyers_same = same ∙ h.buyers_same;
        satisfied_same = h.satisfied_same;
        not_over = λ q. cc;
        settled = λ k b f.
            Settled-filled i (stock + 5000) at lt
              (h.settled k b (sym (ap (λ l. get_elem? l k) same) ∙ f));
      }
  Step-StandsStill (pass e at le) h = record {
    buyers_same = h.buyers_same;
    satisfied_same = h.satisfied_same;
    not_over = λ q. cc;
    settled = h.settled;
  }
  Step-StandsStill (rest e) h = record {
    buyers_same = h.buyers_same;
    satisfied_same = h.satisfied_same;
    not_over = λ q. cc;
    settled = h.settled;
  }

-- Once every buyer has left or waits at a shop with 5,000 or more, and one has not left, then with no spurious
-- wake-up no buyer ever moves again and the loader never stops.
pub Runs-StandsStill :
    (w : World)
    → w.satisfied ≢ length w.buyers
    → w.loader ≢ over
    → AllSettled w.capacity w.buyers
    → {w' : World} → Runs false w w'
    → StandsStill w w'
Runs-StandsStill w some_left running all here = record {
  buyers_same = refl;
  satisfied_same = refl;
  not_over = running;
  settled = all;
}
Runs-StandsStill w some_left running all (later r st) =
    Step-StandsStill w some_left st (Runs-StandsStill w some_left running all r)
