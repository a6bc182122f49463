-- ===== src/Shops/Stock.antt =====
-- The stock of a shop of "11 work/task3.c".
use home_work.Base.{
  ℕ, zero, suc, ◌+◌, ◌-◌, ◌<◌, ◌≡◌, sym, ◌∙◌, Bool, List, some, get_elem?, set, min, arith,
  length-set, get_elem?-set_self, get_elem?-set_ne, lt_of_get_elem?, Bool-cases, inl, inr, ◌==◌, ap,
}
use home_work.Shops.{
  Buyer, World, BuyerStep, see_empty, wait, wake, buy, go_on, Step, buyer_moves, leave, start_round,
  stop, load, pass, rest, empty_shops, init, Runs, here, later,
}

abbrev pub AllBelow : ℕ → List ℕ → Type 0
AllBelow bound xs = (i x : ℕ) → get_elem? xs i ≡ some x → x < bound

AllBelow-set :
    {bound : ℕ} (xs : List ℕ) (i v : ℕ)
    → v < bound
    → AllBelow bound xs
    → AllBelow bound (set xs i v)
AllBelow-set xs i v lt h j x e = elim (Bool-cases (i == j)) [
  | inl same ↦
      let ij : i ≡ j = ground arith in
      let e' : get_elem? (set xs i v) i ≡ some x = ap (get_elem? (set xs i v)) ij ∙ e in
      let inside : i < _ = lt_of_get_elem? (set xs i v) i e' in
      let v_x : v ≡ x =
        cc (e', get_elem?-set_self xs i v (omega (arith, inside, length-set xs i v))) in
      omega arith
  | inr other ↦ h j x (sym (get_elem?-set_ne xs {i = i} {j = j} v (λ q. ground arith)) ∙ e)
]

BuyerStep-AllBelow :
    {spurious : Bool} {capacity capacity' : List ℕ} {b b' : Buyer}
    → BuyerStep spurious capacity b capacity' b'
    → AllBelow 10000 capacity
    → AllBelow 10000 capacity'
BuyerStep-AllBelow (see_empty e) h = h
BuyerStep-AllBelow wait h = h
BuyerStep-AllBelow (wake e) h = h
BuyerStep-AllBelow {capacity = capacity} (buy {need = need} {i = i} {stock = stock} e lt) h =
    AllBelow-set capacity i (stock - min stock need) (omega (arith, h i stock e)) h
BuyerStep-AllBelow (go_on lt) h = h

Step-AllBelow :
    {spurious : Bool} {w w' : World}
    → Step spurious w w'
    → AllBelow 10000 w.capacity
    → AllBelow 10000 w'.capacity
Step-AllBelow (buyer_moves k e st) h = BuyerStep-AllBelow st h
Step-AllBelow (leave k i e) h = h
Step-AllBelow (start_round e ne) h = h
Step-AllBelow (stop e eq) h = h
Step-AllBelow {w = w} (load {i = i} {stock = stock} e at lt sg) h =
    AllBelow-set w.capacity i (stock + 5000) (omega arith) h
Step-AllBelow (pass e at le) h = h
Step-AllBelow (rest e) h = h

AllBelow-empty_shops : (n : ℕ) → AllBelow 10000 (empty_shops n)
AllBelow-empty_shops zero i x e = cc
AllBelow-empty_shops (suc n) zero x e = let z : 0 ≡ x = cc e in omega arith
AllBelow-empty_shops (suc n) (suc i) x e = AllBelow-empty_shops n i x e

-- No shop ever holds 10,000 or more.
pub Runs-AllBelow :
    {spurious : Bool} (shops : ℕ) (wants : List ℕ) {w : World}
    → Runs spurious (init shops wants) w
    → AllBelow 10000 w.capacity
Runs-AllBelow shops wants here = AllBelow-empty_shops shops
Runs-AllBelow shops wants (later r st) = Step-AllBelow st (Runs-AllBelow shops wants r)
