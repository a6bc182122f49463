-- ===== src/FileManager/Moves.antt =====
-- Where the panels of "9 work/task2.c" and the working directory go, while no key switches the panel.
use home_work.Base.{
  ℕ, zero, suc, ◌+◌, ◌-◌, ◌<◌, List, [], ◌∷◌, none, Bool, true, false, ◌≡◌, refl, ◌==◌,
  if◌then◌else◌, get_elem?, arith, Bool-cases, Option-cases, inl, inr, length, take, ap, sym, ◌&&◌,
  not, ltb, ◌≤◌, ◌∙◌, ◌++◌,
}
use mathlib.Core.Path.{subst}
use home_work.Libc.{Bytes, str_eq}
use home_work.FileManager.Selects.{handle_input-opened_by_index, opened_by_index}
use home_work.FileManager.{
  Files, Entry, Manager, Panel, Row, Key, key_up, key_down, character, current, set_current, copied,
  joined, up_text, go_up, go_into, Place, place_of, choose, handle_input, update_panels,
  print_directory, step, is_quit, input_loop, Stage, finished, waiting, start, main, enter,
}

unfoldable pub is_tab : Key → Bool
is_tab key_up = false
is_tab key_down = false
is_tab (character c) = c == 9

unfoldable pub no_tab : List Key → Bool
unfolding is_tab
no_tab [] = true
no_tab (key ∷ keys) = not (is_tab key) && no_tab keys

-- The variables when the run stands.
abbrev pub manager_of : Stage → Manager
manager_of (finished m) = m
manager_of (waiting m) = m

pub current-set_current : (p : Panel) (m : Manager) → current (set_current p m) ≡ p
current-set_current p m = ground arith

-- A loop keeps what each key but the tab keeps.
pub input_loop-keeps {ℓ} :
    (files : Files) (Kept : Manager → Type ℓ) (keys : List Key) (m : Manager)
    → ((key : Key) (m : Manager) → is_tab key ≡ false → Kept m → Kept (step files key m))
    → no_tab keys ≡ true
    → Kept m
    → Kept (manager_of (input_loop files keys m))
unfolding input_loop no_tab
input_loop-keeps files Kept [] m keep h k = k
input_loop-keeps files Kept (key ∷ keys) m keep h k = elim (Bool-cases (is_quit key)) [
  | inl q ↦ rw q k
  | inr q ↦
      let here : is_tab key ≡ false = ground arith in
      let later : no_tab keys ≡ true = ground arith in
      rw q (input_loop-keeps files Kept keys (step files key m) keep later (keep key m here k))
]

-- The panel that is not the current one, and which one is current.
abbrev other : Manager → Panel
other m = if m.current_panel == 0 then m.panel2 else m.panel1

-- The first panel is the current one.
abbrev pub home :
    (directory path : Bytes) (highlight : ℕ) (rows : List Row) (panel2 : Panel) → Manager
home d path h rows p = record {
  directory = d;
  current_panel = 0;
  panel1 = record { path = path; highlight = h; rows = rows };
  panel2 = p;
}

-- Where the first panel stands: in the working directory, or in a directory that `chdir` refuses to go to
-- from there, or the name of the working directory does not fit a buffer.
pub data Stands (files : Files) (directory path : Bytes) : Type 0 where
  at_home : path ≡ directory → Stands files directory path
  refused : files.change directory path ≡ none → copied path ≡ path → Stands files directory path
  too_long : 1024 ≤ length directory → Stands files directory path

abbrev pub AtHome : Files → Panel → Manager → Type 0
AtHome files p m =
    (d : Bytes) × (path : Bytes) × (h : ℕ) × (rows : List Row) × Stands files d path
    × (m ≡ home d path h rows p)

-- `getcwd` writes the name of the working directory when it fits the buffer.
pub record Granted (files : Files) : Type 0 where
  pub names : (d old : Bytes) → length d < 1024 → files.name_into d old ≡ d

pub take-take : (n : ℕ) (xs : Bytes) → take n (take n xs) ≡ take n xs
take-take zero xs = refl
take-take (suc n) [] = refl
take-take (suc n) (x ∷ xs) = ap (λ ys. x ∷ ys) (take-take n xs)

pub take_all : (n : ℕ) (xs : Bytes) → length xs < suc n → take n xs ≡ xs
take_all zero [] h = refl
take_all zero (x ∷ xs) h = absurd (omega arith)
take_all (suc n) [] h = refl
take_all (suc n) (x ∷ xs) h = ap (λ ys. x ∷ ys) (take_all n xs (omega arith))

module _ (files : Files) (granted : Granted files) where
  named-Stands : (d old : Bytes) → Stands files d (files.name_into d old)
  named-Stands d old = elim (Bool-cases (ltb (length d) 1024)) [
    | inl short ↦ at_home (granted.names d old (ground arith))
    | inr long ↦ too_long (ground arith)
  ]

  -- The copy that `new_path` begins as.
  copied-Stands : (d path : Bytes) → Stands files d path → Stands files d (copied path)
  copied-Stands d path (at_home e) = elim (Bool-cases (ltb (length d) 1024)) [
    | inl short ↦
        let fits : length path < 1024 = rw e (ground arith) in at_home (take_all 1023 path fits ∙ e)
    | inr long ↦ too_long (ground arith)
  ]
  copied-Stands d path (refused e same) = refused (ap (files.change d) same ∙ e) (ap copied same)
  copied-Stands d path (too_long h) = too_long h

  module _ (p : Panel) where
    abbrev Leads : Place → Type 0
    Leads place = Stands files place.directory place.new_path

    go_up-Stands : (m : Manager) → Leads (go_up files m)
    unfolding go_up
    go_up-Stands m = elim (Option-cases (files.change m.directory up_text)) [
      | inl e ↦ rw (e, go_up) (named-Stands m.directory (copied (current m).path))
      | inr (d', e) ↦ rw (e, go_up) (named-Stands d' (copied (current m).path))
    ]

    go_into-Stands : (name : Bytes) (m : Manager) → Leads (go_into files name m)
    unfolding go_into
    go_into-Stands name m =
        elim (Option-cases (files.change m.directory (joined (current m).path name))) [
          | inl e ↦ rw (e, go_into) (refused e (take-take 1023 ((current m).path ++ 47 ∷ name)))
          | inr (d', e) ↦ rw (e, go_into) (named-Stands d' (joined (current m).path name))
        ]

    place_of-Stands :
        (entry : Entry) (m : Manager)
        → Stands files m.directory (current m).path
        → Leads (place_of files entry m)
    unfolding place_of
    place_of-Stands entry m s = elim (Bool-cases (str_eq entry.d_name up_text)) [
      | inl up ↦ rw up (go_up-Stands m)
      | inr down ↦ elim (Bool-cases entry.is_directory) [
        | inl e ↦ rw (down, e) (go_into-Stands entry.d_name m)
        | inr e ↦ rw (down, e) (copied-Stands m.directory (current m).path s)
      ]
    ]

    choose-home :
        (d path : Bytes) (h : ℕ) (rows : List Row) (entry : Entry)
        → Stands files d path
        → AtHome files p (choose files entry (home d path h rows p))
    unfolding choose
    choose-home d path h rows entry s =
        let place = place_of files entry (home d path h rows p) in
        (
          place.directory,
          place.new_path,
          0,
          rows,
          place_of-Stands entry (home d path h rows p) s,
          refl,
        )

    open_selected-home :
        (d path : Bytes) (h : ℕ) (rows : List Row)
        → Stands files d path
        → AtHome files p (handle_input files enter (home d path h rows p))
    open_selected-home d path h rows s =
        let found = handle_input-opened_by_index files (home d path h rows p) in
        elim (Option-cases (files.entries_of d (copied path))) [
          | inl e ↦ rw (found, e, opened_by_index) (d, path, h, rows, s, refl)
          | inr (entries, e) ↦ elim (Option-cases (get_elem? entries h)) [
            | inl g ↦ rw (found, e, opened_by_index, g) (d, path, h, rows, s, refl)
            | inr (entry, g) ↦ rw (found, e, opened_by_index, g) (choose-home d path h rows entry s)
          ]
        ]

    handle_input-home :
        (key : Key) (d path : Bytes) (h : ℕ) (rows : List Row)
        → is_tab key ≡ false
        → Stands files d path
        → AtHome files p (handle_input files key (home d path h rows p))
    unfolding handle_input is_tab
    handle_input-home key_up d path h rows other s = (d, path, h - 1, rows, s, refl)
    handle_input-home key_down d path h rows other s = (d, path, h + 1, rows, s, refl)
    handle_input-home (character c) d path h rows other s = elim (Bool-cases (c == 10)) [
      | inl e ↦ rw (other, e) (open_selected-home d path h rows s)
      | inr e ↦ rw (other, e) (d, path, h, rows, s, refl)
    ]

    update_panels-home : (m : Manager) → AtHome files p m → AtHome files p (update_panels files m)
    unfolding update_panels
    update_panels-home m (d, path, h, rows, s, e) =
        (d, path, h, print_directory files d path h, s, ap (update_panels files) e)

    step-home :
        (key : Key) (m : Manager)
        → is_tab key ≡ false
        → AtHome files p m
        → AtHome files p (step files key m)
    unfolding step
    step-home key m other (d, path, h, rows, s, e) = update_panels-home (handle_input files key m) (
        subst (λ x. AtHome files p (handle_input files key x)) (sym e)
          (handle_input-home key d path h rows other s))

-- As long as no key is a tab, the first panel is the current one, and its path is the working directory, or a
-- path that `chdir` refuses from there; the second panel keeps the path that it got at the start, its
-- highlight of 0 and its empty window. This stands on a `getcwd` that writes every name that fits its buffer;
-- of a panel in a directory with a longer name nothing is said.
pub main-AtHome :
    (files : Files) (directory stack1 stack2 : Bytes) (keys : List Key)
    → Granted files
    → no_tab keys ≡ true
    → AtHome files
        (record { path = files.name_into directory stack2; highlight = 0; rows = [] })
        (manager_of (main files directory stack1 stack2 keys))
unfolding main start
main-AtHome files directory stack1 stack2 keys granted h =
    let second : Panel = record {
      path = files.name_into directory stack2;
      highlight = 0;
      rows = [];
    } in
    input_loop-keeps files (AtHome files second) keys
      (update_panels files (start files directory stack1 stack2)) (step-home files granted second) h
      (update_panels-home files granted second (start files directory stack1 stack2) (
        directory,
        files.name_into directory stack1,
        0,
        [],
        named-Stands files granted directory stack1,
        refl,
      ))
