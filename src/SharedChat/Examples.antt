-- ===== src/SharedChat/Examples.antt =====
-- Runs of "14 work/task2", some of them with acts between the acts of another process.
use home_work.Base.{
  ℕ, List, [], ◌∷◌, ◌++◌, Option, none, some, true, ◌≡◌, refl, get_elem?, length, replicate,
}
use home_work.Libc.{Bytes, str_eq, strn_eq}
use home_work.SharedChat.{
  Message, Client, Chat, post, count, receive, settle, run, opened, max_messages, step, act,
  print_new, store_message,
}
use home_work.SharedChat.Loops.{
  Operation, posts, reads, acts_of, schedule, all_stay, all_fit, stays, log_of,
}
use home_work.SharedChat.Delivers.{run-full}

-- "a" and "b"
abbrev two_names : List Bytes
two_names = (97 ∷ []) ∷ (98 ∷ []) ∷ []

-- "x" and "y"
abbrev x_text : Bytes
x_text = 120 ∷ []

abbrev y_text : Bytes
y_text = 121 ∷ []

abbrev two_posts : List Operation
two_posts = posts 0 x_text ∷ reads 0 ∷ posts 1 y_text ∷ []

abbrev hundred_posts : List Operation
hundred_posts = replicate 100 (posts 0 x_text)

hundred_posts_stay : all_stay hundred_posts ≡ true
unfolding all_stay strn_eq
hundred_posts_stay = refl

hundred_posts_fit : length (log_of two_names hundred_posts) ≡ max_messages
unfolding log_of
hundred_posts_fit = refl

two_names_fit : all_fit two_names ≡ true
unfolding all_fit
two_names_fit = refl

y_stays : stays (posts 1 y_text) ≡ true
unfolding strn_eq
y_stays = refl

run-full_example :
    run (schedule hundred_posts ++ acts_of (posts 1 y_text)) (opened two_names) ≡ none
run-full_example =
    run-full two_names hundred_posts 1 (98 ∷ []) y_text refl two_names_fit hundred_posts_stay
      hundred_posts_fit y_stays

abbrev window_of : ℕ → Option Chat → Option (List Message)
window_of c none = none
window_of c (some w) = window_in (get_elem? w.clients c)
  where
    window_in : Option Client → Option (List Message)
    window_in none = none
    window_in (some k) = some k.message_win

-- A third client gets an empty line in place of the message of "a": "b" has posted before "a" has counted.
overwritten :
    window_of 2 (
      run
        ((0, post x_text) ∷ (1, post y_text) ∷ (0, count) ∷ (1, count) ∷ (2, receive) ∷ [])
        (opened (two_names ++ ((99 ∷ []) ∷ []))))
    ≡ some (record { name = 98 ∷ []; text = y_text } ∷ record { name = []; text = [] } ∷ [])
unfolding run step act print_new store_message opened str_eq strn_eq
overwritten = refl

-- A message that is counted between the loop of a receiver and its last line is not shown by it.
passed_over :
    window_of 1 (
      run
        ((1, receive) ∷ (0, post x_text) ∷ (0, count) ∷ (1, settle) ∷ (1, receive) ∷ [])
        (opened two_names))
    ≡ some []
unfolding run step act print_new store_message opened str_eq strn_eq
passed_over = refl
