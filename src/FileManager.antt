-- ===== src/FileManager.antt =====
-- "9 work/task2.c": the two panels of a file manager. The directories are told by the system and stay as
-- they are; the calls of ncurses are told by what they print.
pub mod Selects
pub mod Moves
pub mod Lists
pub mod Stuck
mod Examples
use home_work.Base.{
  ℕ, zero, suc, ◌+◌, ◌-◌, List, [], ◌∷◌, ◌++◌, Option, none, some, Bool, true, false, take,
  if◌then◌else◌, ◌==◌,
}
use home_work.Libc.{Bytes, str_eq}

-- `is_directory` is `d_type == DT_DIR`.
pub record Entry : Type 0 where
  pub d_name : Bytes
  pub is_directory : Bool

-- The system. `entries_of directory path` is what `readdir` returns one after another, `none` when `opendir`
-- returns NULL; `change directory path` the directory that `chdir` makes the working one, `none` when it
-- fails; `name_into directory old` the string in a buffer of 1024 bytes after `getcwd`, which held `old`.
pub record Files : Type 0 where
  pub entries_of : (directory path : Bytes) → Option (List Entry)
  pub change : (directory path : Bytes) → Option Bytes
  pub name_into : (directory old : Bytes) → Bytes

-- What `getch` returns: KEY_UP and KEY_DOWN are no codes of characters.
pub data Key : Type 0 where
  key_up key_down : Key
  character : ℕ → Key

abbrev pub tab : Key
tab = character 9

abbrev pub enter : Key
enter = character 10

-- The row, the name, and whether it is shown in reverse.
pub record Row : Type 0 where
  pub row : ℕ
  pub text : Bytes
  pub is_reverse : Bool

-- An element of `paths` and of `highlight`, with what its window shows.
pub record Panel : Type 0 where
  pub path : Bytes
  pub highlight : ℕ
  pub rows : List Row

-- The variables of `main`, and the working directory of the process. PANEL1 is 0 and PANEL2 is 1.
pub record Manager : Type 0 where
  pub directory : Bytes
  pub current_panel : ℕ
  pub panel1 : Panel
  pub panel2 : Panel

-- `highlight[*current_panel]` and `paths[*current_panel]` stand in this one.
abbrev pub current : Manager → Panel
current m = if m.current_panel == 0 then m.panel1 else m.panel2

abbrev pub set_current : Panel → Manager → Manager
set_current p m =
    if m.current_panel == 0
    then record {
      directory = m.directory;
      current_panel = m.current_panel;
      panel1 = p;
      panel2 = m.panel2;
    }
    else record {
      directory = m.directory;
      current_panel = m.current_panel;
      panel1 = m.panel1;
      panel2 = p;
    }

abbrev pub set_highlight : ℕ → Manager → Manager
set_highlight h m =
    set_current (record { path = (current m).path; highlight = h; rows = (current m).rows }) m

-- ".."
abbrev pub up_text : Bytes
up_text = 46 ∷ 46 ∷ []

-- `snprintf(new_path, sizeof(new_path), ...)` keeps 1023 bytes.
abbrev pub copied : Bytes → Bytes
copied s = take 1023 s

-- "%s/%s"
abbrev pub joined : (path name : Bytes) → Bytes
joined path name = copied (path ++ 47 ∷ name)

-- The working directory and `new_path`.
pub record Place : Type 0 where
  pub directory : Bytes
  pub new_path : Bytes

-- The result of the first `chdir` is not looked at.
unfoldable pub go_up : Files → Manager → Place
go_up files m = elim (files.change m.directory up_text) [
  | none ↦ record {
    directory = m.directory;
    new_path = files.name_into m.directory (copied (current m).path);
  }
  | some d ↦ record { directory = d; new_path = files.name_into d (copied (current m).path) }
]

unfoldable pub go_into : Files → (name : Bytes) → Manager → Place
go_into files name m = elim (files.change m.directory (joined (current m).path name)) [
  | none ↦ record { directory = m.directory; new_path = joined (current m).path name }
  | some d ↦ record { directory = d; new_path = files.name_into d (joined (current m).path name) }
]

-- The `if` on the name and the type of the entry.
unfoldable pub place_of : Files → Entry → Manager → Place
unfolding str_eq go_up go_into
place_of files entry m =
    if str_eq entry.d_name up_text
    then go_up files m
    else if entry.is_directory
    then go_into files entry.d_name m
    else record { directory = m.directory; new_path = copied (current m).path }

-- What a round of the `while` does at the highlighted entry; then it returns.
unfoldable pub choose : Files → Entry → Manager → Manager
unfolding place_of
choose files entry m =
    let place = place_of files entry m in
    set_current (record { path = place.new_path; highlight = 0; rows = (current m).rows })
      (record {
        directory = place.directory;
        current_panel = m.current_panel;
        panel1 = m.panel1;
        panel2 = m.panel2;
      })

unfoldable pub read_entries : Files → List Entry → (index : ℕ) → Manager → Manager
unfolding choose
read_entries files [] index m = m
read_entries files (entry ∷ entries) index m =
    let rest = read_entries files entries (index + 1) m in
    if index == (current m).highlight then choose files entry m else rest

-- The case '\n'.
unfoldable pub open_selected : Files → Manager → Manager
unfolding read_entries
open_selected files m = elim (files.entries_of m.directory (copied (current m).path)) [
  | none ↦ m
  | some entries ↦ read_entries files entries 0 m
]

unfoldable pub switch_panel : Manager → Manager
switch_panel m = record {
  directory = m.directory;
  current_panel = if m.current_panel == 0 then 1 else 0;
  panel1 = m.panel1;
  panel2 = m.panel2;
}

-- KEY_UP leaves a highlight of 0, since the one below it is put back.
unfoldable pub handle_input : Files → Key → Manager → Manager
unfolding open_selected switch_panel
handle_input files key_up m = set_highlight ((current m).highlight - 1) m
handle_input files key_down m = set_highlight ((current m).highlight + 1) m
handle_input files (character c) m =
    if c == 9 then switch_panel m else if c == 10 then open_selected files m else m

-- The loop of `print_directory`; `row` and `selected` are equal.
unfoldable pub print_entries : (highlight row : ℕ) → List Entry → List Row
print_entries highlight row [] = []
print_entries highlight row (entry ∷ entries) =
    record { row = row; text = entry.d_name; is_reverse = row == highlight }
    ∷ print_entries highlight (row + 1) entries

-- What the window shows: `werase` is called before `opendir`.
unfoldable pub print_directory : Files → (directory path : Bytes) (highlight : ℕ) → List Row
unfolding print_entries
print_directory files directory path highlight = elim (files.entries_of directory path) [
  | none ↦ []
  | some entries ↦ print_entries highlight 0 entries
]

unfoldable pub update_panels : Files → Manager → Manager
unfolding print_directory
update_panels files m =
    set_current
      (record {
        path = (current m).path;
        highlight = (current m).highlight;
        rows = print_directory files m.directory (current m).path (current m).highlight;
      })
      m

-- `finished` has got the key 'q', `waiting` is in `getch`.
pub data Stage : Type 0 where
  finished waiting : Manager → Stage

-- A key, and what it leads to.
unfoldable pub step : Files → Key → Manager → Manager
unfolding handle_input update_panels
step files key m = update_panels files (handle_input files key m)

-- `(ch = getch()) != 'q'`
unfoldable pub is_quit : Key → Bool
is_quit key_up = false
is_quit key_down = false
is_quit (character c) = c == 113

unfoldable pub input_loop : Files → List Key → Manager → Stage
unfolding step is_quit
input_loop files [] m = waiting m
input_loop files (key ∷ keys) m =
    let rest = input_loop files keys (step files key m) in if is_quit key then finished m else rest

-- `stack1` and `stack2` are what the two buffers hold before `getcwd`.
unfoldable pub start : Files → (directory stack1 stack2 : Bytes) → Manager
start files directory stack1 stack2 = record {
  directory = directory;
  current_panel = 0;
  panel1 = record { path = files.name_into directory stack1; highlight = 0; rows = [] };
  panel2 = record { path = files.name_into directory stack2; highlight = 0; rows = [] };
}

unfoldable pub main : Files → (directory stack1 stack2 : Bytes) → List Key → Stage
unfolding start update_panels input_loop
main files directory stack1 stack2 keys =
    input_loop files keys (update_panels files (start files directory stack1 stack2))
