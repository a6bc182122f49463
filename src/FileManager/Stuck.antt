-- ===== src/FileManager/Stuck.antt =====
-- "9 work/task2.c": a directory that cannot be entered.
use home_work.Base.{
  ℕ, ◌+◌, ◌-◌, List, ◌∷◌, ◌++◌, none, some, true, false, ◌≡◌, refl, ◌==◌, get_elem?, arith,
  Bool-cases, inl, inr, ◌∙◌, ap, sym,
}
use mathlib.Core.Path.{subst}
use home_work.Libc.{Bytes, str_eq}
use home_work.FileManager.Selects.{handle_input-opened_by_index, opened_by_index}
use home_work.FileManager.Moves.{
  is_tab, no_tab, manager_of, current-set_current, input_loop-keeps, take-take,
}
use home_work.FileManager.{
  Files, Entry, Manager, Panel, Row, Key, key_up, key_down, character, current, set_current, copied,
  joined, up_text, go_into, Place, place_of, choose, handle_input, update_panels, print_directory,
  step, is_quit, input_loop, enter,
}

directory-set_current : (p : Panel) (m : Manager) → (set_current p m).directory ≡ m.directory
directory-set_current p m = ground arith

-- The path of the current panel and the working directory.
abbrev pub Shows : (path directory : Bytes) → Manager → Type 0
Shows path d m = ((current m).path ≡ path) × (m.directory ≡ d)

module _ (files : Files) (path d : Bytes) where
  set_current-Shows :
      (h : ℕ) (rows : List Row) (m : Manager)
      → Shows path d m
      → Shows path d
          (set_current (record { path = (current m).path; highlight = h; rows = rows }) m)
  set_current-Shows h rows m s =
      let p : Panel = record { path = (current m).path; highlight = h; rows = rows } in
      (ap (λ x. x.path) (current-set_current p m) ∙ s.0, directory-set_current p m ∙ s.1)

  open_selected-same :
      (m : Manager)
      → files.entries_of d (copied path) ≡ none
      → Shows path d m
      → handle_input files enter m ≡ m
  open_selected-same m shut s =
      let shut_here : files.entries_of m.directory (copied (current m).path) ≡ none =
        rw (s.0, s.1) shut in
      handle_input-opened_by_index files m ∙ rw (shut_here, opened_by_index) refl

  handle_input-Shows :
      (key : Key) (m : Manager)
      → files.entries_of d (copied path) ≡ none
      → is_tab key ≡ false
      → Shows path d m
      → Shows path d (handle_input files key m)
  unfolding handle_input is_tab
  handle_input-Shows key_up m shut other s =
      set_current-Shows ((current m).highlight - 1) (current m).rows m s
  handle_input-Shows key_down m shut other s =
      set_current-Shows ((current m).highlight + 1) (current m).rows m s
  handle_input-Shows (character c) m shut other s = elim (Bool-cases (c == 10)) [
    | inl e ↦ rw (other, e) (subst (Shows path d) (sym (open_selected-same m shut s)) s)
    | inr e ↦ rw (other, e) s
  ]

  step-Shows :
      files.entries_of d (copied path) ≡ none
      → (key : Key) (m : Manager) → is_tab key ≡ false
      → Shows path d m
      → Shows path d (step files key m)
  unfolding step update_panels
  step-Shows shut key m other s =
      let m' = handle_input files key m in
      set_current-Shows (current m').highlight
        (print_directory files m'.directory (current m').path (current m').highlight) m'
        (handle_input-Shows key m shut other s)

choose-Shows :
    (files : Files) (entry : Entry) (m : Manager) (place : Place)
    → place_of files entry m ≡ place
    → Shows place.new_path place.directory (choose files entry m)
unfolding choose
choose-Shows files entry m place e =
    let p : Panel = record { path = place.new_path; highlight = 0; rows = (current m).rows } in
    let moved : Manager = record {
      directory = place.directory;
      current_panel = m.current_panel;
      panel1 = m.panel1;
      panel2 = m.panel2;
    } in
    rw e (ap (λ x. x.path) (current-set_current p moved), directory-set_current p moved)

place_of-refused :
    (files : Files) (m : Manager) (entry : Entry)
    → str_eq entry.d_name up_text ≡ false
    → entry.is_directory ≡ true
    → files.change m.directory (joined (current m).path entry.d_name) ≡ none
    → place_of files entry m
      ≡ record { directory = m.directory; new_path = joined (current m).path entry.d_name }
unfolding place_of go_into
place_of-refused files m entry named is_dir refused =
    rw (named, is_dir) (rw (refused, go_into) refl)

-- When the highlighted entry is a directory other than `..`, which `chdir` refuses and `opendir` cannot
-- read, the key '\n' gives the panel the path of that directory all the same; then no keys but the tab bring
-- the panel or the process anywhere else, `..` included.
pub input_loop-stuck :
    (files : Files) (m : Manager) (entries : List Entry) (entry : Entry) (keys : List Key)
    → files.entries_of m.directory (copied (current m).path) ≡ some entries
    → get_elem? entries (current m).highlight ≡ some entry
    → str_eq entry.d_name up_text ≡ false
    → entry.is_directory ≡ true
    → files.change m.directory (joined (current m).path entry.d_name) ≡ none
    → files.entries_of m.directory (joined (current m).path entry.d_name) ≡ none
    → no_tab keys ≡ true
    → Shows
        (joined (current m).path entry.d_name)
        m.directory
        (manager_of (input_loop files (enter ∷ keys) m))
unfolding input_loop is_quit step update_panels
input_loop-stuck files m entries entry keys listed at named is_dir refused shut h =
    let path : Bytes = joined (current m).path entry.d_name in
    let shut_copy : files.entries_of m.directory (copied path) ≡ none =
      rw (take-take 1023 ((current m).path ++ 47 ∷ entry.d_name)) shut in
    let entered : Shows path m.directory (handle_input files enter m) =
      rw (handle_input-opened_by_index files m, opened_by_index, listed, at)
        (choose-Shows files entry m (record { directory = m.directory; new_path = path })
          (place_of-refused files m entry named is_dir refused)) in
    let m' = handle_input files enter m in
    input_loop-keeps files (Shows path m.directory) keys (step files enter m)
      (step-Shows files path m.directory shut_copy) h
      (set_current-Shows files path m.directory (current m').highlight
        (print_directory files m'.directory (current m').path (current m').highlight) m' entered)
