-- ===== src/Phonebook/Dynamic/Safety.antt =====
-- The counter of "6 work/reference_book.c", the size of its block, and the accesses to the block.
use home_work.Base.{ℕ, ◌+◌, ◌≡◌, length}
use home_work.Console.Safe.{IsSafe}
use home_work.Phonebook.Defs.{field_size}
use home_work.Phonebook.Dynamic.{Block, State}

-- `count` is the number of entries of the block, `extra` aside.
pub record IsBlock (extra : ℕ) (b : Block) : Type 0 where
  pub size : b.count + extra ≡ length b.phonebook

module _ (n : ℕ) where
  abbrev Fine : ℕ → State → Type 0
  Fine extra = IsSafe (IsBlock extra) field_size n

-- The counter agrees with the block.
abbrev pub HasBlock : State → Type 0
HasBlock s = IsBlock 0 s.book
