-- ===== src/FileManager/Examples.antt =====
-- Runs of "9 work/task2.c".
use home_work.Base.{ℕ, [], ◌∷◌, none, some, true, false, ◌≡◌, refl, if◌then◌else◌}
use home_work.Libc.{Bytes, str_eq}
use home_work.FileManager.{
  Files, Entry, Manager, key_up, key_down, enter, joined, handle_input, print_directory,
  print_entries, input_loop, main,
}
use home_work.FileManager.Selects.{handle_input-Opens, Opens}
use home_work.FileManager.Moves.{Granted, AtHome, main-AtHome, manager_of, no_tab}
use home_work.FileManager.Stuck.{Shows, input_loop-stuck}

-- "/"
abbrev root : Bytes
root = 47 ∷ []

-- "x"
abbrev x_name : Bytes
x_name = 120 ∷ []

-- "f"
abbrev f_name : Bytes
f_name = 102 ∷ []

abbrev x_entry : Entry
x_entry = record { d_name = x_name; is_directory = true }

abbrev f_entry : Entry
f_entry = record { d_name = f_name; is_directory = false }

-- A system of one directory, which every change leads to.
abbrev one_directory : Files
one_directory = record {
  entries_of = λ directory path. some (x_entry ∷ f_entry ∷ []);
  change = λ directory path. some root;
  name_into = λ directory old. directory;
}

-- The entry "x" cannot be entered or read.
abbrev refusing : Files
refusing = record {
  entries_of = λ directory path. if str_eq path root then some (f_entry ∷ x_entry ∷ []) else none;
  change = λ directory path. none;
  name_into = λ directory old. directory;
}

abbrev at_root : ℕ → Manager
at_root h = record {
  directory = root;
  current_panel = 0;
  panel1 = record { path = root; highlight = h; rows = [] };
  panel2 = record { path = root; highlight = 0; rows = [] };
}

refusing-Granted : Granted refusing
refusing-Granted = record { names = λ d old short. refl }

handle_input-Opens_example : Opens refusing (at_root 1) (handle_input refusing enter (at_root 1))
handle_input-Opens_example = handle_input-Opens refusing (at_root 1)

down_enter_up : no_tab (key_down ∷ enter ∷ key_up ∷ []) ≡ true
unfolding no_tab
down_enter_up = refl

main-AtHome_example :
    AtHome refusing
      (record { path = root; highlight = 0; rows = [] })
      (manager_of (main refusing root [] [] (key_down ∷ enter ∷ key_up ∷ [])))
main-AtHome_example =
    main-AtHome refusing root [] [] (key_down ∷ enter ∷ key_up ∷ []) refusing-Granted down_enter_up

root_listed : refusing.entries_of root root ≡ some (f_entry ∷ x_entry ∷ [])
unfolding str_eq
root_listed = refl

x_not_up : str_eq x_name (46 ∷ 46 ∷ []) ≡ false
unfolding str_eq
x_not_up = refl

x_shut : refusing.entries_of root (joined root x_name) ≡ none
unfolding str_eq
x_shut = refl

down_enter : no_tab (key_down ∷ enter ∷ []) ≡ true
unfolding no_tab
down_enter = refl

input_loop-stuck_example :
    Shows
      (joined root x_name)
      root
      (manager_of (input_loop refusing (enter ∷ key_down ∷ enter ∷ []) (at_root 1)))
input_loop-stuck_example =
    input_loop-stuck refusing (at_root 1) (f_entry ∷ x_entry ∷ []) x_entry (key_down ∷ enter ∷ [])
      root_listed refl x_not_up refl refl x_shut down_enter

-- A directory of two entries, with the second one highlighted.
two_rows :
    print_directory one_directory root root 1
    ≡ record { row = 0; text = x_name; is_reverse = false }
      ∷ record { row = 1; text = f_name; is_reverse = true }
      ∷ []
unfolding print_directory print_entries
two_rows = refl
