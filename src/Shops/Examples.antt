-- ===== src/Shops/Examples.antt =====
-- Runs of one buyer, who wants 7, and one shop.
use home_work.Base.{
  ℕ, zero, suc, ◌+◌, ◌≡◌, ◌≢◌, refl, false, List, [], ◌∷◌, some, length, get_elem?, arith,
}
use home_work.Shops.{
  entering, missed, waiting, finished, Buyer, deciding, loading, over, World, unheard, see_empty,
  wait, buy, buyer_moves, leave, start_round, stop, load, rest, init, Runs, here, later,
}
use home_work.Shops.Totals.{total}
use home_work.Shops.Goods.{goods, wanted, unfinished, sum, Runs-balance, Runs-over}
use home_work.Shops.Stock.{AllBelow}
use home_work.Shops.Stuck.{unheeded, AllSettled, StandsStill, Runs-StandsStill}

abbrev wants : List ℕ
wants = 7 ∷ []

-- The loader fills the shop before the buyer enters it.
filled : Runs false (init 1 wants) (record {
  capacity = 5000 ∷ [];
  satisfied = 0;
  buyers = record { need = 7; pc = entering 0 } ∷ [];
  loader = loading 1;
  delivered = 5000;
})
filled =
    later (later here (start_round refl λ e. omega (arith, e)))
      (load {i = 0} {stock = 0} refl refl (omega arith) (unheard only_entering))
  where
    only_entering :
        (k : ℕ) (b : Buyer)
        → get_elem? (record { need = 7; pc = entering 0 } ∷ []) k ≡ some b
        → b.pc ≢ waiting 0
    only_entering zero b e q = cc (e, q)
    only_entering (suc k) b e q = cc

abbrev served : World
served = record {
  capacity = 4993 ∷ [];
  satisfied = 1;
  buyers = record { need = 0; pc = finished } ∷ [];
  loader = over;
  delivered = 5000;
}

served_run : Runs false (init 1 wants) served
served_run =
    later
      (later
        (later
          (later filled
            (buyer_moves 0 refl (buy {need = 7} {i = 0} {stock = 5000} refl (omega arith))))
          (leave 0 0 refl))
        (rest refl))
      (stop refl refl)

Runs-balance_example :
    (total goods served.capacity + sum wants ≡ served.delivered + total wanted served.buyers)
    × (served.satisfied + total unfinished served.buyers ≡ length served.buyers)
    × AllBelow 10000 served.capacity
Runs-balance_example = Runs-balance 1 wants served_run

Runs-over_example :
    (total unfinished served.buyers ≡ 0)
    × (total wanted served.buyers ≡ 0)
    × (served.delivered ≡ sum wants + total goods served.capacity)
Runs-over_example = Runs-over 1 wants served_run refl

-- The buyer has seen the shop empty before the loader filled it, and waits after it.
abbrev lost : World
lost = record {
  capacity = 5000 ∷ [];
  satisfied = 0;
  buyers = record { need = 7; pc = waiting 0 } ∷ [];
  loader = loading 1;
  delivered = 5000;
}

lost_run : Runs false (init 1 wants) lost
lost_run =
    later
      (later
        (later (later here (buyer_moves 0 refl (see_empty {need = 7} {i = 0} refl)))
          (start_round refl λ e. omega (arith, e)))
        (load {i = 0} {stock = 0} refl refl (omega arith) (unheard nobody_waits)))
      (buyer_moves 0 refl (wait {need = 7} {i = 0}))
  where
    nobody_waits :
        (k : ℕ) (b : Buyer)
        → get_elem? (record { need = 7; pc = missed 0 } ∷ []) k ≡ some b
        → b.pc ≢ waiting 0
    nobody_waits zero b e q = cc (e, q)
    nobody_waits (suc k) b e q = cc

lost-AllSettled : AllSettled lost.capacity lost.buyers
lost-AllSettled zero b e = unheeded 0 5000 (cc e) refl (omega arith)
lost-AllSettled (suc k) b e = cc

Runs-StandsStill_example : StandsStill lost (record lost { loader = deciding })
Runs-StandsStill_example =
    Runs-StandsStill lost (λ e. omega (arith, e)) (λ e. cc) lost-AllSettled (later here (rest refl))
