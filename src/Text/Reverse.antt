-- ===== src/Text/Reverse.antt =====
-- The swaps of `reverse_string` ("16 work") and the reverse of a list.
use home_work.Base.{
  ℕ, zero, suc, ◌+◌, ◌-◌, ◌/◌, ◌<◌, ◌≡◌, refl, sym, ap, ◌∙◌, [], ◌∷◌, ◌++◌, none, some, arith,
  Bool-cases, inl, inr, true, ◌||◌, ltb, leb, ◌==◌, if◌then◌else◌, length, get_elem?, set,
  length-set, get_elem?-set_self, get_elem?-set_ne, get_elem?_total, length-append, reverse,
}
use mathlib.Core.Path.{subst, ap₂}
use mathlib.Core.List.{reverse-append}
use home_work.Libc.{Bytes}
use home_work.Text.{swap, reverse_loop, reverse_string}

-- Where byte `j` comes from after `i` swaps of a string of length `n`.
abbrev source_index : (n i j : ℕ) → ℕ
source_index n i j = if ltb j i || leb (n - i) j then n - 1 - j else j

record IsSwapped (str : Bytes) (i : ℕ) (cur : Bytes) : Type 0 where
  size : length cur ≡ length str
  bytes : (j : ℕ) → j < length str → get_elem? cur j ≡ get_elem? str (source_index (length str) i j)

module _ (str : Bytes) where
  swapped :
      (i : ℕ) (cur : Bytes)
      → i < length str / 2
      → IsSwapped str i cur
      → {a b : ℕ} → get_elem? cur i ≡ some a
      → get_elem? cur (length str - 1 - i) ≡ some b
      → (j : ℕ) → j < length str
      → get_elem? (set (set cur i b) (length str - 1 - i) a) j
        ≡ get_elem? str (source_index (length str) (i + 1) j)
  swapped i cur lt inv {a} {b} ea eb j h =
      let k : ℕ = length str - 1 - i in
      ground (
        arith,
        inv.size,
        inv.bytes j h,
        inv.bytes i (omega arith),
        inv.bytes k (omega arith),
        length-set cur i b,
        get_elem?-set_self (set cur i b) k a,
        get_elem?-set_ne (set cur i b) {i = k} {j = j} a,
        get_elem?-set_self cur i b,
        get_elem?-set_ne cur {i = i} {j = j} b,
      )

  swap_step :
      (i : ℕ) (cur : Bytes)
      → i < length str / 2
      → IsSwapped str i cur
      → (next : Bytes) × (swap i (length str - 1 - i) cur ≡ some next) × IsSwapped str (i + 1) next
  unfolding swap
  swap_step i cur lt inv =
      let k : ℕ = length str - 1 - i in
      let (a, ea) = get_elem?_total cur i (omega (arith, inv.size)) in
      let (b, eb) = get_elem?_total cur k (omega (arith, inv.size)) in
      (
        set (set cur i b) k a,
        rw (ea, eb, swap) refl,
        record {
          size = length-set (set cur i b) k a ∙ length-set cur i b ∙ inv.size;
          bytes = λ j h. swapped i cur lt inv ea eb j h;
        },
      )

  reverse_loop-IsSwapped :
      (rounds i : ℕ) (cur : Bytes)
      → i + rounds ≡ length str / 2
      → IsSwapped str i cur
      → (out : Bytes) × (reverse_loop rounds i (length str) cur ≡ some out)
        × IsSwapped str (length str / 2) out
  unfolding reverse_loop
  reverse_loop-IsSwapped zero i cur e inv =
      let e' : i ≡ length str / 2 = omega arith in
      (cur, refl, subst (λ n. IsSwapped str n cur) e' inv)
  reverse_loop-IsSwapped (suc rounds) i cur e inv =
      let (next, step, inv') = swap_step i cur (omega arith) inv in
      let (out, rest, last) = reverse_loop-IsSwapped rounds (i + 1) next (omega arith) inv' in
      (out, rw (step, reverse_loop) rest, last)

get_elem?-append_last :
    (xs : Bytes) (x j : ℕ)
    → get_elem? (xs ++ (x ∷ [])) j
      ≡ (if ltb j (length xs) then get_elem? xs j else if j == length xs then some x else none)
get_elem?-append_last [] x zero = refl
get_elem?-append_last [] x (suc j) = ground arith
get_elem?-append_last (y ∷ xs) x zero = ground arith
get_elem?-append_last (y ∷ xs) x (suc j) = ground (arith, get_elem?-append_last xs x j)

length-reverse : (xs : Bytes) → length (reverse xs) ≡ length xs
length-reverse [] = refl
length-reverse (x ∷ xs) =
    ap length (reverse-append (x ∷ []) xs)
    ∙ omega (arith, length-append (reverse xs) (x ∷ []), length-reverse xs)

get_elem?-reverse :
    (xs : Bytes) (j : ℕ)
    → j < length xs
    → get_elem? (reverse xs) j ≡ get_elem? xs (length xs - 1 - j)
get_elem?-reverse [] j h = absurd (omega arith)
get_elem?-reverse (x ∷ xs) j h =
    ap (λ l. get_elem? l j) (reverse-append (x ∷ []) xs)
    ∙ get_elem?-append_last (reverse xs) x j
    ∙ elim (Bool-cases (ltb j (length (reverse xs)))) [
      | inl inside ↦
          let below : j < length xs = ground (arith, length-reverse xs) in
          rw inside (
            get_elem?-reverse xs j below
            ∙ ap (get_elem? (x ∷ xs)) {x = suc (length xs - 1 - j)} {y = suc (length xs) - 1 - j}
                (omega arith))
      | inr last ↦
          let here : (j == length (reverse xs)) ≡ true = ground (arith, length-reverse xs) in
          rw (last, here)
            (ap (get_elem? (x ∷ xs)) {x = 0} {y = suc (length xs) - 1 - j}
              (ground (arith, length-reverse xs)))
    ]

eq_of_get_elem? :
    (xs ys : Bytes)
    → length xs ≡ length ys
    → ((j : ℕ) → j < length xs → get_elem? xs j ≡ get_elem? ys j)
    → xs ≡ ys
eq_of_get_elem? [] [] e h = refl
eq_of_get_elem? [] (y ∷ ys) e h = absurd (omega arith)
eq_of_get_elem? (x ∷ xs) [] e h = absurd (omega arith)
eq_of_get_elem? (x ∷ xs) (y ∷ ys) e h =
    ap₂ ◌∷◌ (cc (h 0 (omega arith)))
      (eq_of_get_elem? xs ys (omega arith) (λ j k. h (suc j) (omega arith)))

source_index-half : (n j : ℕ) → j < n → source_index n (n / 2) j ≡ n - 1 - j
source_index-half n j h = ground arith

swapped-reverse : (str out : Bytes) → IsSwapped str (length str / 2) out → out ≡ reverse str
swapped-reverse str out inv =
    eq_of_get_elem? out (reverse str) (inv.size ∙ sym (length-reverse str)) λ j h.
      let below : j < length str = omega (arith, inv.size) in
      inv.bytes j below
      ∙ ap (get_elem? str) (source_index-half (length str) j below)
      ∙ sym (get_elem?-reverse str j below)

unswapped : (str : Bytes) → IsSwapped str 0 str
unswapped str = record { size = refl; bytes = λ j h. ground arith }

-- On every string `reverse_string` accesses no byte outside the string and leaves its reverse.
pub reverse_string-reverse : (str : Bytes) → reverse_string str ≡ some (reverse str)
unfolding reverse_string
reverse_string-reverse str =
    let (out, e, inv) =
      reverse_loop-IsSwapped str (length str / 2) 0 str (omega arith) (unswapped str) in
    e ∙ ap some (swapped-reverse str out inv)
