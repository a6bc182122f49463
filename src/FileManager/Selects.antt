-- ===== src/FileManager/Selects.antt =====
-- Which entry the key '\n' of "9 work/task2.c" opens.
use home_work.Base.{
  ℕ, zero, suc, ◌+◌, List, [], ◌∷◌, Option, none, some, false, ◌≡◌, refl, ◌==◌, get_elem?, arith,
  Option-cases, inl, inr, true, Bool-cases, if◌then◌else◌,
}
use home_work.Libc.{Bytes, str_eq}
use home_work.FileManager.{
  Files, Entry, Manager, current, copied, choose, read_entries, open_selected, handle_input, enter,
  joined, up_text, go_up, go_into, place_of,
}

-- The list behind the entries that are read.
abbrev chosen_or_same : Files → Option Entry → Manager → Manager
chosen_or_same files none m = m
chosen_or_same files (some e) m = choose files e m

read_entries-get_elem? :
    (files : Files) (entries : List Entry) (index left : ℕ) (m : Manager)
    → index + left ≡ (current m).highlight
    → read_entries files entries index m ≡ chosen_or_same files (get_elem? entries left) m
unfolding read_entries
read_entries-get_elem? files [] index left m h = refl
read_entries-get_elem? files (e ∷ es) index zero m h = ground arith
read_entries-get_elem? files (e ∷ es) index (suc left) m h =
    let apart : (index == (current m).highlight) ≡ false = ground arith in
    rw apart (read_entries-get_elem? files es (index + 1) left m (omega arith))

-- What '\n' leads to, by a look-up in the list of the directory.
abbrev pub opened_by_index : Files → Manager → Manager
opened_by_index files m = elim (files.entries_of m.directory (copied (current m).path)) [
  | none ↦ m
  | some entries ↦ chosen_or_same files (get_elem? entries (current m).highlight) m
]

-- The key '\n' by that look-up.
pub handle_input-opened_by_index :
    (files : Files) (m : Manager) → handle_input files enter m ≡ opened_by_index files m
unfolding handle_input open_selected
handle_input-opened_by_index files m =
    elim (Option-cases (files.entries_of m.directory (copied (current m).path))) [
      | inl h ↦ rw (h, open_selected, opened_by_index) refl
      | inr (entries, h) ↦
          rw (h, open_selected, opened_by_index)
            (read_entries-get_elem? files entries 0 (current m).highlight m (omega arith))
    ]

-- The working directory and the path of the current panel, whose highlight is reset.
abbrev pub moved : (directory path : Bytes) → Manager → Manager
moved d path m = record {
  directory = d;
  current_panel = m.current_panel;
  panel1 =
      if m.current_panel == 0
      then record { path = path; highlight = 0; rows = m.panel1.rows }
      else m.panel1;
  panel2 =
      if m.current_panel == 0
      then m.panel2
      else record { path = path; highlight = 0; rows = m.panel2.rows };
}

-- The directory of the current panel lists `entry` at the highlight, counted from 0.
pub record IsAt (files : Files) (m : Manager) (entry : Entry) : Type 0 where
  pub entries : List Entry
  pub listed : files.entries_of m.directory (copied (current m).path) ≡ some entries
  pub at : get_elem? entries (current m).highlight ≡ some entry

-- What the key may lead to, told by the answers of the system.
pub data Opens (files : Files) (m : Manager) : Manager → Type 0 where
  unreadable : files.entries_of m.directory (copied (current m).path) ≡ none → Opens files m m
  no_entry :
      (entries : List Entry)
      → files.entries_of m.directory (copied (current m).path) ≡ some entries
      → get_elem? entries (current m).highlight ≡ none
      → Opens files m m
  up_moved :
      {entry : Entry} {d : Bytes}
      → IsAt files m entry
      → str_eq entry.d_name up_text ≡ true
      → files.change m.directory up_text ≡ some d
      → Opens files m (moved d (files.name_into d (copied (current m).path)) m)
  up_failed :
      {entry : Entry}
      → IsAt files m entry
      → str_eq entry.d_name up_text ≡ true
      → files.change m.directory up_text ≡ none
      → Opens files m (moved m.directory (files.name_into m.directory (copied (current m).path)) m)
  entered :
      {entry : Entry} {d : Bytes}
      → IsAt files m entry
      → str_eq entry.d_name up_text ≡ false
      → entry.is_directory ≡ true
      → files.change m.directory (joined (current m).path entry.d_name) ≡ some d
      → Opens files m (moved d (files.name_into d (joined (current m).path entry.d_name)) m)
  refused :
      {entry : Entry}
      → IsAt files m entry
      → str_eq entry.d_name up_text ≡ false
      → entry.is_directory ≡ true
      → files.change m.directory (joined (current m).path entry.d_name) ≡ none
      → Opens files m (moved m.directory (joined (current m).path entry.d_name) m)
  not_directory :
      {entry : Entry}
      → IsAt files m entry
      → str_eq entry.d_name up_text ≡ false
      → entry.is_directory ≡ false
      → Opens files m (moved m.directory (copied (current m).path) m)

module _ (files : Files) (m : Manager) where
  choose-moved :
      (entry : Entry)
      → choose files entry m
        ≡ moved (place_of files entry m).directory (place_of files entry m).new_path m
  unfolding choose
  choose-moved entry = ground arith

  choose_up-Opens :
      (entry : Entry)
      → IsAt files m entry
      → str_eq entry.d_name up_text ≡ true
      → Opens files m (choose files entry m)
  unfolding place_of go_up
  choose_up-Opens entry here up = elim (Option-cases (files.change m.directory up_text)) [
    | inl e ↦ rw (choose-moved entry, place_of, up, go_up, e) (up_failed here up e)
    | inr (d, e) ↦ rw (choose-moved entry, place_of, up, go_up, e) (up_moved here up e)
  ]

  choose_into-Opens :
      (entry : Entry)
      → IsAt files m entry
      → str_eq entry.d_name up_text ≡ false
      → entry.is_directory ≡ true
      → Opens files m (choose files entry m)
  unfolding place_of go_into
  choose_into-Opens entry here other dir =
      elim (Option-cases (files.change m.directory (joined (current m).path entry.d_name))) [
        | inl e ↦
            rw (choose-moved entry, place_of, other, dir, go_into, e) (refused here other dir e)
        | inr (d, e) ↦
            rw (choose-moved entry, place_of, other, dir, go_into, e) (entered here other dir e)
      ]

  choose-Opens : (entry : Entry) → IsAt files m entry → Opens files m (choose files entry m)
  unfolding place_of
  choose-Opens entry here = elim (Bool-cases (str_eq entry.d_name up_text)) [
    | inl up ↦ choose_up-Opens entry here up
    | inr other ↦ elim (Bool-cases entry.is_directory) [
      | inl dir ↦ choose_into-Opens entry here other dir
      | inr dir ↦ rw (choose-moved entry, place_of, other, dir) (not_directory here other dir)
    ]
  ]

-- The key '\n' looks at the entry at the index of the highlight in the list of the directory, counted from 0.
-- For `..` the process goes to the parent directory when it can, and the panel gets the name of the working
-- directory in either case; a directory is entered, and named so, when `chdir` allows it, and when not the
-- panel gets its path all the same; for another file the path stays, cut to the buffer. In these cases the
-- highlight goes back to 0. Without such an entry, or in a directory that cannot be read, nothing changes;
-- the other panel never does.
pub handle_input-Opens : (files : Files) (m : Manager) → Opens files m (handle_input files enter m)
handle_input-Opens files m =
    elim (Option-cases (files.entries_of m.directory (copied (current m).path))) [
      | inl h ↦ rw (handle_input-opened_by_index files m, h, opened_by_index) (unreadable h)
      | inr (entries, h) ↦ elim (Option-cases (get_elem? entries (current m).highlight)) [
        | inl g ↦
            rw (handle_input-opened_by_index files m, h, opened_by_index, g) (no_entry entries h g)
        | inr (entry, g) ↦
            rw (handle_input-opened_by_index files m, h, opened_by_index, g)
              (choose-Opens files m entry (record { entries = entries; listed = h; at = g }))
      ]
    ]
