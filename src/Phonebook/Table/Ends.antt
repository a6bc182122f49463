-- ===== src/Phonebook/Table/Ends.antt =====
-- The operations over a list of persons that both tables refine put no item back into the input.
use home_work.Base.{ℕ, ltb, length, ◌==◌}
use home_work.Console.Ends.{EndsWith, Left, and_then-EndsWith, if-EndsWith, scan_word-EndsWith}
use home_work.Phonebook.Defs.{field_size, max_abonents}
use home_work.Phonebook.Listing.{say}
use home_work.Phonebook.Table.View.{Abstract, spec_add, spec_show, append_person}

module _ (n : ℕ) where
  append_person-Left : (t : Abstract) → Left n t → EndsWith (Left n) (append_person t)
  append_person-Left t h =
      and_then-EndsWith (Left n) (Left n) _ _ (scan_word-EndsWith field_size t n h) λ a s p.
        and_then-EndsWith (Left n) (Left n) _ _ (scan_word-EndsWith field_size s n p) λ b s p.
          and_then-EndsWith (Left n) (Left n) _ _ (scan_word-EndsWith field_size s n p) λ c s p. p

  pub spec_add-Left : (t : Abstract) → Left n t → EndsWith (Left n) (spec_add t)
  unfolding spec_add
  spec_add-Left t h =
      if-EndsWith (Left n) (ltb (length t.book) max_abonents) _ _ (append_person-Left t h) h

  pub spec_show-Left : (t : Abstract) → Left n t → EndsWith (Left n) (spec_show t)
  unfolding spec_show say
  spec_show-Left t h = if-EndsWith (Left n) (length t.book == 0) _ _ h h
