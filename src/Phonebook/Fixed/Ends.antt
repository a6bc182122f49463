-- ===== src/Phonebook/Fixed/Ends.antt =====
-- Deletion and search over a list put no item back into the input.
use home_work.Base.{ℕ, ltb, length, Option, none, some}
use home_work.Base.Int.{ℤ, pos, negsuc}
use home_work.Console.Ends.{EndsWith, Left, and_then-EndsWith, if-EndsWith, scan_word-EndsWith}
use home_work.Phonebook.Defs.{Person, search_size, find_name}
use home_work.Phonebook.Table.View.{Abstract}
use home_work.Phonebook.Fixed.Spec.{spec_del, answer, spec_search}

module _ (n : ℕ) where
  pub spec_del-Left : (index : ℤ) (t : Abstract) → Left n t → EndsWith (Left n) (spec_del index t)
  unfolding spec_del
  spec_del-Left (negsuc k) t h = h
  spec_del-Left (pos i) t h = if-EndsWith (Left n) (ltb i (length t.book)) _ _ h h

  answer-Left : (o : Option Person) (t : Abstract) → Left n t → EndsWith (Left n) (answer o t)
  answer-Left none t h = h
  answer-Left (some p) t h = h

  pub spec_search-Left : (t : Abstract) → Left n t → EndsWith (Left n) (spec_search t)
  unfolding spec_search
  spec_search-Left t h =
      and_then-EndsWith (Left n) (Left n) _ _ (scan_word-EndsWith search_size t n h)
        λ w s p. answer-Left (find_name w s.book) s p
