-- ===== src/FileManager/Lists.antt =====
-- What a window of "9 work/task2.c" shows.
use home_work.Base.{
  ℕ, zero, suc, ◌+◌, List, [], ◌∷◌, Option, none, some, ◌≡◌, refl, ◌==◌, ◌∙◌, get_elem?, arith,
  length, ap,
}
use home_work.Libc.{Bytes}
use home_work.FileManager.{Files, Entry, Row, print_entries, print_directory}

abbrev pub row_of : (highlight row : ℕ) → Option Entry → Option Row
row_of highlight row none = none
row_of highlight row (some entry) =
    some (record { row = row; text = entry.d_name; is_reverse = row == highlight })

print_entries-get_elem? :
    (highlight row : ℕ) (entries : List Entry) (i : ℕ)
    → get_elem? (print_entries highlight row entries) i
      ≡ row_of highlight (row + i) (get_elem? entries i)
unfolding print_entries
print_entries-get_elem? highlight row [] i = refl
print_entries-get_elem? highlight row (e ∷ es) zero =
    ap (λ r. row_of highlight r (some e)) (omega arith)
print_entries-get_elem? highlight row (e ∷ es) (suc i) =
    print_entries-get_elem? highlight (row + 1) es i
    ∙ ap (λ r. row_of highlight r (get_elem? es i)) (omega arith)

length-print_entries :
    (highlight row : ℕ) (entries : List Entry)
    → length (print_entries highlight row entries) ≡ length entries
unfolding print_entries
length-print_entries highlight row [] = refl
length-print_entries highlight row (e ∷ es) = ap suc (length-print_entries highlight (row + 1) es)

-- A window shows as many rows as its directory has entries: in row `i` the name of entry `i`, in
-- reverse at the highlight and nowhere else.
pub print_directory-rows :
    (files : Files) (directory path : Bytes) (highlight : ℕ) (entries : List Entry)
    → files.entries_of directory path ≡ some entries
    → (length (print_directory files directory path highlight) ≡ length entries)
      × ((i : ℕ)
          → get_elem? (print_directory files directory path highlight) i
            ≡ row_of highlight i (get_elem? entries i))
unfolding print_directory
print_directory-rows files directory path highlight entries e =
    rw (e, print_directory)
      (
        length-print_entries highlight 0 entries,
        λ i.
            print_entries-get_elem? highlight 0 entries i
            ∙ ap (λ r. row_of highlight r (get_elem? entries i)) (omega arith),
      )
