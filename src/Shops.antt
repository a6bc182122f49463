-- ===== src/Shops.antt =====
-- "11 work/task3.c": buyers who empty shops and a loader who fills them. A critical section, of which
-- none waits for anything while it holds the mutex of a shop or of the buyers, is one step; so is
-- `pthread_cond_wait`, whose mutex the loader does not take.
pub mod Totals
pub mod Goods
pub mod Stock
pub mod Stuck
mod Examples
use home_work.Base.{
  ℕ, zero, suc, ◌+◌, ◌-◌, ◌≤◌, ◌<◌, ◌≡◌, ◌≢◌, Bool, true, false, List, [], ◌∷◌, Option, none, some,
  length, get_elem?, set, if◌then◌else◌, ◌==◌, ltb, map, min,
}

-- Where a buyer stands; `i` is an index of a shop.
pub data BuyerPc : Type 0 where
  entering : (i : ℕ) → BuyerPc  -- before the shop's mutex
  missed : (i : ℕ) → BuyerPc  -- has seen the shop empty, and waits not yet
  waiting : (i : ℕ) → BuyerPc  -- in `pthread_cond_wait`
  asleep : (i : ℕ) → BuyerPc  -- in `sleep(2)` behind the shop
  finished : BuyerPc

pub record Buyer : Type 0 where
  pub need : ℕ
  pub pc : BuyerPc

pub data LoaderPc : Type 0 where
  deciding : LoaderPc  -- head of the loop
  loading : (i : ℕ) → LoaderPc  -- before the shop's mutex
  over : LoaderPc

-- `delivered` is what the loader has brought in all.
pub record World : Type 0 where
  pub capacity : List ℕ
  pub satisfied : ℕ
  pub buyers : List Buyer
  pub loader : LoaderPc
  pub delivered : ℕ

abbrev pub next_shop : (shops i : ℕ) → ℕ
next_shop shops i = if suc i == shops then 0 else suc i

-- `pthread_cond_signal` wakes a buyer who waits at the shop, if there is one.
pub data Signal (i : ℕ) (buyers : List Buyer) : List Buyer → Type 0 where
  unheard :
      ((k : ℕ) (b : Buyer) → get_elem? buyers k ≡ some b → b.pc ≢ waiting i)
      → Signal i buyers buyers
  wakes :
      (k : ℕ) (b : Buyer)
      → get_elem? buyers k ≡ some b
      → b.pc ≡ waiting i
      → Signal i buyers (set buyers k (record b { pc = entering i }))

-- A step of a buyer; with `spurious` a wait may also end with no signal.
pub data BuyerStep (spurious : Bool) (capacity : List ℕ) : Buyer → List ℕ → Buyer → Type 0 where
  see_empty :
      {need i : ℕ}
      → get_elem? capacity i ≡ some 0
      → BuyerStep spurious capacity
          (record { need = need; pc = entering i })
          capacity
          (record { need = need; pc = missed i })
  wait :
      {need i : ℕ}
      → BuyerStep spurious capacity
          (record { need = need; pc = missed i })
          capacity
          (record { need = need; pc = waiting i })
  wake :
      {need i : ℕ}
      → spurious ≡ true
      → BuyerStep spurious capacity
          (record { need = need; pc = waiting i })
          capacity
          (record { need = need; pc = entering i })
  buy :
      {need i stock : ℕ}
      → get_elem? capacity i ≡ some stock
      → 0 < stock
      → BuyerStep spurious capacity
          (record { need = need; pc = entering i })
          (set capacity i (stock - min stock need))
          (record { need = need - min stock need; pc = asleep i })
  go_on :
      {need i : ℕ}
      → 0 < need
      → BuyerStep spurious capacity
          (record { need = need; pc = asleep i })
          capacity
          (record { need = need; pc = entering (next_shop (length capacity) i) })

pub data Step (spurious : Bool) (w : World) : World → Type 0 where
  buyer_moves :
      (k : ℕ) {b b' : Buyer} {capacity : List ℕ}
      → get_elem? w.buyers k ≡ some b
      → BuyerStep spurious w.capacity b capacity b'
      → Step spurious w (record w { capacity = capacity; buyers = set w.buyers k b' })
  leave :
      (k i : ℕ)
      → get_elem? w.buyers k ≡ some (record { need = 0; pc = asleep i })
      → Step spurious w (record w {
        satisfied = w.satisfied + 1;
        buyers = set w.buyers k (record { need = 0; pc = finished });
      })
  start_round :
      w.loader ≡ deciding
      → w.satisfied ≢ length w.buyers
      → Step spurious w (record w { loader = loading 0 })
  stop :
      w.loader ≡ deciding
      → w.satisfied ≡ length w.buyers
      → Step spurious w (record w { loader = over })
  load :
      {i stock : ℕ} {buyers : List Buyer}
      → w.loader ≡ loading i
      → get_elem? w.capacity i ≡ some stock
      → stock < 5000
      → Signal i w.buyers buyers
      → Step spurious w (record w {
        capacity = set w.capacity i (stock + 5000);
        buyers = buyers;
        loader = loading (suc i);
        delivered = w.delivered + 5000;
      })
  pass :
      {i stock : ℕ}
      → w.loader ≡ loading i
      → get_elem? w.capacity i ≡ some stock
      → 5000 ≤ stock
      → Step spurious w (record w { loader = loading (suc i) })
  rest : w.loader ≡ loading (length w.capacity) → Step spurious w (record w { loader = deciding })

-- `main`: empty shops, and buyers with what each wants.
abbrev pub new_buyer : ℕ → Buyer
new_buyer need = record { need = need; pc = entering 0 }

abbrev pub empty_shops : ℕ → List ℕ
empty_shops zero = []
empty_shops (suc n) = 0 ∷ empty_shops n

abbrev pub init : (shops : ℕ) (wants : List ℕ) → World
init shops wants = record {
  capacity = empty_shops shops;
  satisfied = 0;
  buyers = map new_buyer wants;
  loader = deciding;
  delivered = 0;
}

pub data Runs (spurious : Bool) (w : World) : World → Type 0 where
  here : Runs spurious w w
  later : {u v : World} → Runs spurious w u → Step spurious u v → Runs spurious w v
