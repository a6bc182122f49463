-- ===== src/Shops/Goods.antt =====
-- The goods of "11 work/task3.c": what is delivered, taken and left, and how the loader ends.
use home_work.Shops.Stock.{AllBelow, Runs-AllBelow}
use home_work.Base.{
  ℕ, zero, suc, ◌+◌, ◌-◌, ◌≤◌, ◌≡◌, refl, ap, ◌∙◌, Bool, List, [], ◌∷◌, length, map, min, arith,
  length-set,
}
use mathlib.Core.Path.{subst}
use home_work.Shops.{
  BuyerPc, entering, missed, waiting, asleep, finished, Buyer, LoaderPc, deciding, loading, over,
  World, Signal, unheard, wakes, BuyerStep, see_empty, wait, wake, buy, go_on, Step, buyer_moves,
  leave, start_round, stop, load, pass, rest, new_buyer, empty_shops, init, Runs, here, later,
}
use home_work.Shops.Totals.{total, total-set}

abbrev pub goods : ℕ → ℕ
goods n = n

abbrev pub wanted : Buyer → ℕ
wanted b = b.need

abbrev pub unfinished_pc : BuyerPc → ℕ
unfinished_pc finished = 0
unfinished_pc (entering i) = 1
unfinished_pc (missed i) = 1
unfinished_pc (waiting i) = 1
unfinished_pc (asleep i) = 1

abbrev pub unfinished : Buyer → ℕ
unfinished b = unfinished_pc b.pc

-- What a buyer who has left still needed.
abbrev owed_pc : ℕ → BuyerPc → ℕ
owed_pc need finished = need
owed_pc need (entering i) = 0
owed_pc need (missed i) = 0
owed_pc need (waiting i) = 0
owed_pc need (asleep i) = 0

abbrev owed : Buyer → ℕ
owed b = owed_pc b.need b.pc

abbrev StoppedRight : LoaderPc → (satisfied buyers : ℕ) → Type 0
StoppedRight over satisfied n = n ≤ satisfied
StoppedRight deciding satisfied n = Unit {0}
StoppedRight (loading i) satisfied n = Unit {0}

pub record Inv (wishes : ℕ) (w : World) : Type 0 where
  pub balance : total goods w.capacity + wishes ≡ w.delivered + total wanted w.buyers
  pub count : w.satisfied + total unfinished w.buyers ≡ length w.buyers
  pub paid : total owed w.buyers ≡ 0
  pub stopped : StoppedRight w.loader w.satisfied (length w.buyers)

BuyerStep-goods :
    {spurious : Bool} {capacity capacity' : List ℕ} {b b' : Buyer}
    → BuyerStep spurious capacity b capacity' b'
    → (total goods capacity' + wanted b ≡ total goods capacity + wanted b')
      × (unfinished b ≡ unfinished b')
      × (owed b ≡ owed b')
BuyerStep-goods (see_empty e) = (refl, refl, refl)
BuyerStep-goods wait = (refl, refl, refl)
BuyerStep-goods (wake e) = (refl, refl, refl)
BuyerStep-goods {capacity = capacity} (buy {need = need} {i = i} {stock = stock} e lt) =
    (omega (arith, total-set goods capacity i (stock - min stock need) e), refl, refl)
BuyerStep-goods (go_on lt) = (refl, refl, refl)

Signal-kept :
    {i : ℕ} {buyers buyers' : List Buyer}
    → Signal i buyers buyers'
    → (total wanted buyers' ≡ total wanted buyers)
      × (total unfinished buyers' ≡ total unfinished buyers)
      × (total owed buyers' ≡ total owed buyers)
      × (length buyers' ≡ length buyers)
Signal-kept (unheard h) = (refl, refl, refl, refl)
Signal-kept {i} {buyers} (wakes k b e at) =
    let b' : Buyer = record b { pc = entering i } in
    (
      omega (arith, total-set wanted buyers k b' e),
      omega (arith, total-set unfinished buyers k b' e, ap unfinished_pc at),
      omega (arith, total-set owed buyers k b' e, ap (owed_pc b.need) at),
      length-set buyers k b',
    )

stopped_more : (l : LoaderPc) (s n : ℕ) → StoppedRight l s n → StoppedRight l (s + 1) n
stopped_more over s n h = omega arith
stopped_more deciding s n h = tt
stopped_more (loading i) s n h = tt

Step-Inv :
    {spurious : Bool} {wishes : ℕ} {w w' : World}
    → Step spurious w w'
    → Inv wishes w
    → Inv wishes w'
Step-Inv {w = w} (buyer_moves k {b = b} {b' = b'} e st) inv =
    let (g, u, o) = BuyerStep-goods st in
    record {
      balance = omega (arith, inv.balance, g, total-set wanted w.buyers k b' e);
      count =
          omega
            (arith, inv.count, u, total-set unfinished w.buyers k b' e, length-set w.buyers k b');
      paid = omega (arith, inv.paid, o, total-set owed w.buyers k b' e);
      stopped = rw (length-set w.buyers k b') inv.stopped;
    }
Step-Inv {w = w} (leave k i e) inv =
    let gone : Buyer = record { need = 0; pc = finished } in
    record {
      balance = omega (arith, inv.balance, total-set wanted w.buyers k gone e);
      count =
          omega
            (arith, inv.count, total-set unfinished w.buyers k gone e, length-set w.buyers k gone);
      paid = omega (arith, inv.paid, total-set owed w.buyers k gone e);
      stopped =
          rw (length-set w.buyers k gone)
            (stopped_more w.loader w.satisfied (length w.buyers) inv.stopped);
    }
Step-Inv (start_round e ne) inv = record {
  balance = inv.balance;
  count = inv.count;
  paid = inv.paid;
  stopped = tt;
}
Step-Inv (stop e eq) inv = record {
  balance = inv.balance;
  count = inv.count;
  paid = inv.paid;
  stopped = omega (arith, eq);
}
Step-Inv {w = w} (load {i = i} {stock = stock} e at lt sg) inv =
    let (need, left, owing, size) = Signal-kept sg in
    record {
      balance = omega (arith, inv.balance, need, total-set goods w.capacity i (stock + 5000) at);
      count = omega (arith, inv.count, left, size);
      paid = omega (arith, inv.paid, owing);
      stopped = tt;
    }
Step-Inv (pass e at le) inv = record {
  balance = inv.balance;
  count = inv.count;
  paid = inv.paid;
  stopped = tt;
}
Step-Inv (rest e) inv = record {
  balance = inv.balance;
  count = inv.count;
  paid = inv.paid;
  stopped = tt;
}

total-empty_shops : (n : ℕ) → total goods (empty_shops n) ≡ 0
unfolding total
total-empty_shops zero = refl
total-empty_shops (suc n) = omega (arith, total-empty_shops n)

abbrev pub sum : List ℕ → ℕ
sum wants = total goods wants

total-new_buyer :
    (wants : List ℕ)
    → (total wanted (map new_buyer wants) ≡ sum wants)
      × (total unfinished (map new_buyer wants) ≡ length (map new_buyer wants))
      × (total owed (map new_buyer wants) ≡ 0)
unfolding total
total-new_buyer [] = (refl, refl, refl)
total-new_buyer (x ∷ wants) =
    let (a, b, c) = total-new_buyer wants in (omega (arith, a), omega (arith, b), omega (arith, c))

pub Runs-Inv :
    {spurious : Bool} (shops : ℕ) (wants : List ℕ) {w : World}
    → Runs spurious (init shops wants) w
    → Inv (sum wants) w
Runs-Inv shops wants here =
    let (a, b, c) = total-new_buyer wants in
    record {
      balance = omega (arith, a, total-empty_shops shops);
      count = omega (arith, b);
      paid = c;
      stopped = tt;
    }
Runs-Inv shops wants (later r st) = Step-Inv st (Runs-Inv shops wants r)

finished_owes : (need : ℕ) (pc : BuyerPc) → unfinished_pc pc ≡ 0 → need ≡ owed_pc need pc
finished_owes need finished h = refl
finished_owes need (entering i) h = absurd (omega (arith, h))
finished_owes need (missed i) h = absurd (omega (arith, h))
finished_owes need (waiting i) h = absurd (omega (arith, h))
finished_owes need (asleep i) h = absurd (omega (arith, h))

-- Once nobody is unfinished, what is needed is what the leavers still needed.
wanted_of_finished :
    (buyers : List Buyer) → total unfinished buyers ≡ 0 → total wanted buyers ≡ total owed buyers
unfolding total
wanted_of_finished [] h = refl
wanted_of_finished (b ∷ buyers) h =
    let here_gone : unfinished_pc b.pc ≡ 0 = omega (arith, h) in
    omega (arith, finished_owes b.need b.pc here_gone, wanted_of_finished buyers (omega (arith, h)))

-- Whatever the order of the steps and whatever wake-ups are spurious: what the loader has delivered is what
-- stands in the shops together with what the buyers have taken, every buyer is counted as satisfied or has
-- not left, and no shop holds 10,000 or more.
pub Runs-balance :
    {spurious : Bool} (shops : ℕ) (wants : List ℕ) {w : World}
    → Runs spurious (init shops wants) w
    → (total goods w.capacity + sum wants ≡ w.delivered + total wanted w.buyers)
      × (w.satisfied + total unfinished w.buyers ≡ length w.buyers)
      × AllBelow 10000 w.capacity
Runs-balance shops wants r =
    let inv = Runs-Inv shops wants r in (inv.balance, inv.count, Runs-AllBelow shops wants r)

-- When the loader has stopped, every buyer has left with all that he wanted, and what was delivered is what all
-- wanted together with what is left in the shops.
pub Runs-over :
    {spurious : Bool} (shops : ℕ) (wants : List ℕ) {w : World}
    → Runs spurious (init shops wants) w
    → w.loader ≡ over
    → (total unfinished w.buyers ≡ 0)
      × (total wanted w.buyers ≡ 0)
      × (w.delivered ≡ sum wants + total goods w.capacity)
Runs-over shops wants {w = w} r e =
    let inv = Runs-Inv shops wants r in
    let all_in : length w.buyers ≤ w.satisfied =
      subst (λ l. StoppedRight l w.satisfied (length w.buyers)) e inv.stopped in
    let gone : total unfinished w.buyers ≡ 0 = omega (arith, all_in, inv.count) in
    let nothing : total wanted w.buyers ≡ 0 = wanted_of_finished w.buyers gone ∙ inv.paid in
    (gone, nothing, omega (arith, inv.balance, nothing))
