-- ===== src/QueueChat/Client/Shows.antt =====
-- The lines that a client of "13 work/task2" prints, against the messages it has received.
use home_work.Base.{
  ℕ, zero, suc, ◌<◌, ◌≡◌, refl, ap, List, [], ◌∷◌, ◌++◌, none, some, if◌then◌else◌, length, take,
  Bool-cases, inl, inr,
}
use home_work.Libc.{Bytes, str_eq}
use home_work.Posix.{
  Answer, start, recv, Event, did, got, sent, closed, shown, Process, show_text, receive,
}
use home_work.Posix.Ensures.{start-Stage, Ensures, Stage, one_of, Clean, Waits, Triple, ◌then_do◌}
use home_work.Posix.Rules.{ask-Triple, pure-Triple, option-Triple, no_rounds-Triple, relax}
use home_work.Sockets.{overlay}
use home_work.QueueChat.{text_of, name_of, join_text, joined_text, newline}
use home_work.QueueChat.Client.{quit_text, left_text, colon, print_received, receive_messages}

-- The texts that a log prints, the newest first.
abbrev pub shown_texts : List Event → List Bytes
shown_texts [] = []
shown_texts (did c ∷ log) = shown_texts log
shown_texts (got message ∷ log) = shown_texts log
shown_texts (sent message ∷ log) = shown_texts log
shown_texts (closed fd ∷ log) = shown_texts log
shown_texts (shown text ∷ log) = text ∷ shown_texts log

-- What a message is for its reader: who comes, who goes, and what the others write.
abbrev pub lines_of : (own msg : Bytes) → List Bytes
lines_of own msg =
    if str_eq (text_of msg) join_text
    then (name_of msg ++ joined_text ++ newline) ∷ []
    else if str_eq (text_of msg) quit_text
    then (name_of msg ++ left_text ++ newline) ∷ []
    else if str_eq (name_of msg) own
    then []
    else (name_of msg ++ colon ++ text_of msg ++ newline) ∷ []

module _ (own first : Bytes) where
  -- The buffer, when the messages of a log have been received into it.
  abbrev pub buffer_after : List Event → Bytes
  buffer_after [] = first
  buffer_after (did c ∷ log) = buffer_after log
  buffer_after (got message ∷ log) = overlay message (buffer_after log)
  buffer_after (sent message ∷ log) = buffer_after log
  buffer_after (closed fd ∷ log) = buffer_after log
  buffer_after (shown text ∷ log) = buffer_after log

  -- The lines of the messages of a log, the newest first.
  abbrev pub due_texts : List Event → List Bytes
  due_texts [] = []
  due_texts (did c ∷ log) = due_texts log
  due_texts (got message ∷ log) = lines_of own (overlay message (buffer_after log)) ++ due_texts log
  due_texts (sent message ∷ log) = due_texts log
  due_texts (closed fd ∷ log) = due_texts log
  due_texts (shown text ∷ log) = due_texts log

  abbrev pub Shown : List Event → Type 0
  Shown log = shown_texts log ≡ due_texts log

  record Owing (buffer : Bytes) (lines : List Bytes) (log : List Event) : Type 0 where
    all_due : lines ++ shown_texts log ≡ due_texts log
    buffer_is : buffer_after log ≡ buffer

  abbrev Owes : (n : ℕ) (buffer : Bytes) (lines : List Bytes) → Process → Type 0
  Owes n buffer lines = Stage (Owing buffer lines) n []

  print-Triple :
      {n : ℕ} {buffer : Bytes} (line : Bytes)
      → Triple Shown (Owes n buffer (line ∷ [])) (λ _. Owes n buffer []) (show_text line)
  print-Triple line = record {
    ends = λ p h. record {
      open_ones = h.open_ones;
      logged = record { all_due = h.logged.all_due; buffer_is = h.logged.buffer_is };
      fuelled = h.fuelled;
    };
  }

  print_received-Triple :
      {n : ℕ} (buffer : Bytes)
      → Triple Shown
          (Owes n buffer (lines_of own buffer))
          (λ _. Owes n buffer [])
          (print_received own buffer)
  unfolding print_received
  print_received-Triple {n = n} buffer = elim (Bool-cases (str_eq (text_of buffer) join_text)) [
    | inl join ↦ rw join (print-Triple (name_of buffer ++ joined_text ++ newline))
    | inr other ↦ elim (Bool-cases (str_eq (text_of buffer) quit_text)) [
      | inl quit ↦ rw (other, quit) (print-Triple (name_of buffer ++ left_text ++ newline))
      | inr text ↦ elim (Bool-cases (str_eq (name_of buffer) own)) [
        | inl mine ↦ rw (other, text, mine) (pure-Triple Shown λ p h. h)
        | inr theirs ↦
            rw (other, text, theirs)
              (print-Triple (name_of buffer ++ colon ++ text_of buffer ++ newline))
      ]
    ]
  ]

  receive-Triple :
      {n : ℕ} (buffer : Bytes)
      → Triple Shown
          (Owes (suc n) buffer [])
          (λ o. elim o [
            | none ↦ Owes n buffer []
            | some message ↦ Owes n (overlay message buffer) (lines_of own (overlay message buffer))
          ])
          (receive 288)
  unfolding receive
  receive-Triple {n = n} buffer =
      relax (λ l h. h.all_due)
        (ask-Triple (Owing buffer []) (did (recv 288)) one_of
          λ l h. record { all_due = h.all_due; buffer_is = h.buffer_is })
      then_do λ a.
          option-Triple (λ _. Owes n buffer []) a.value (record { ends = λ p h. h })
            λ m. record {
              ends = λ p h. record {
                open_ones = h.open_ones;
                logged = record {
                  all_due = rw (h.logged.buffer_is) (ap (◌++◌ _) h.logged.all_due);
                  buffer_is = ap (overlay (take 288 a.payload)) h.logged.buffer_is;
                };
                fuelled = h.fuelled;
              };
            }

  receive_messages-Triple :
      (n : ℕ) (buffer : Bytes)
      → Triple Shown (Owes n buffer []) (λ _ p. ⊥) (receive_messages n own buffer)
  unfolding receive_messages
  receive_messages-Triple zero buffer = no_rounds-Triple
  receive_messages-Triple (suc n) buffer = receive-Triple buffer then_do λ o.
      option-Triple
        (λ x. elim x [
          | none ↦ Owes n buffer []
          | some message ↦ Owes n (overlay message buffer) (lines_of own (overlay message buffer))
        ])
        o (receive_messages-Triple n buffer)
        λ message. print_received-Triple (overlay message buffer) then_do λ _.
          receive_messages-Triple n (overlay message buffer)

-- Whatever its calls answer, whenever the thread of a client waits, it has printed a line for each message
-- it has received, in order: who joined, who left, or the writer and the text, but nothing for a text of its
-- own client. It never returns, and a bound on its rounds above the number of answers is enough.
pub receive_messages-Ensures :
    (n : ℕ) (own buffer : Bytes) (answers : List Answer)
    → length answers < n
    → Ensures
        (λ _ p. ⊥)
        (Clean (Shown own buffer))
        (Waits (Shown own buffer))
        (receive_messages n own buffer (start answers))
receive_messages-Ensures n own buffer answers h =
    (receive_messages-Triple own buffer n buffer).ends (start answers)
      (start-Stage (record { all_due = refl; buffer_is = refl }) h)
