-- ===== src/Sockets/Threads/Echoes.antt =====
-- The replies of a thread of "16 work/socket work 2/multithreadServer.c".
use home_work.Base.{
  ℕ, zero, suc, ◌<◌, ◌≡◌, refl, sym, ap, ◌∙◌, List, [], ◌∷◌, length, if◌then◌else◌,
}
use home_work.Libc.{Bytes}
use home_work.Posix.{
  Answer, Event, did, got, sent, shown, closed, show_text, succeeds, receive, close, ◌>>◌, Program,
}
use home_work.Posix.Ensures.{
  Ensures, Stage, none_of, one_of, IsQuiet, quiet_did, quiet_closed, Triple, Clean, Waits,
  ◌then_do◌,
}
use home_work.Posix.Rules.{
  close-Triple, option-Triple, succeeds-Triple, Received, receive-Triple, weaken, relax,
  no_rounds-Triple,
}
use home_work.Text.{until_nul}
use home_work.Sockets.{overlay, is_empty}
use home_work.Sockets.Messages.{sent_messages}
use home_work.Sockets.Threads.{handle_client}

-- The texts printed, the newest first.
abbrev pub shown_texts : List Event → List Bytes
shown_texts [] = []
shown_texts (did c ∷ log) = shown_texts log
shown_texts (got b ∷ log) = shown_texts log
shown_texts (sent b ∷ log) = shown_texts log
shown_texts (closed fd ∷ log) = shown_texts log
shown_texts (shown b ∷ log) = b ∷ shown_texts log

module _ (old : Bytes) where
  -- The buffer, which held `old`, after the messages of a log; the empty one is the end of the stream.
  abbrev pub buffer_after : List Event → Bytes
  buffer_after [] = old
  buffer_after (did c ∷ log) = buffer_after log
  buffer_after (got message ∷ log) = overlay message (buffer_after log)
  buffer_after (sent text ∷ log) = buffer_after log
  buffer_after (closed fd ∷ log) = buffer_after log
  buffer_after (shown text ∷ log) = buffer_after log

  -- What the messages of a log are taken for, the newest first: the message with what an earlier one has left
  -- behind it in the buffer, up to a NUL.
  abbrev pub heard : List Event → List Bytes
  heard [] = []
  heard (did c ∷ log) = heard log
  heard (got [] ∷ log) = heard log
  heard (got (b ∷ message) ∷ log) = until_nul (overlay (b ∷ message) (buffer_after log)) ∷ heard log
  heard (sent text ∷ log) = heard log
  heard (closed fd ∷ log) = heard log
  heard (shown text ∷ log) = heard log

  -- What was heard is printed, and sent.
  abbrev pub Echoes : List Event → Type 0
  Echoes log = (shown_texts log ≡ heard log) × (sent_messages log ≡ heard log)

  -- With the buffer as it is.
  abbrev At : Bytes → List Event → Type 0
  At buffer log = Echoes log × (buffer_after log ≡ buffer)

  At-quiet :
      (buffer : Bytes) (e : Event) (log : List Event)
      → IsQuiet e
      → At buffer log
      → At buffer (e ∷ log)
  At-quiet buffer _ log quiet_did h = h
  At-quiet buffer _ log quiet_closed h = h

  Echoes-quiet : (e : Event) (log : List Event) → IsQuiet e → Echoes log → Echoes (e ∷ log)
  Echoes-quiet _ log quiet_did h = h
  Echoes-quiet _ log quiet_closed h = h

  -- A message has come that is neither printed nor sent yet.
  abbrev Owes : Bytes → Bytes → List Event → Type 0
  Owes buffer [] log = Echoes log
  Owes buffer (b ∷ message) log =
      let text = until_nul (overlay (b ∷ message) buffer) in
      (text ∷ shown_texts log ≡ heard log)
      × (text ∷ sent_messages log ≡ heard log)
      × (buffer_after log ≡ overlay (b ∷ message) buffer)

  owes :
      (buffer message : Bytes) (log : List Event)
      → At buffer log
      → Owes buffer message (got message ∷ log)
  owes buffer [] log h = h.0
  owes buffer (b ∷ message) log h =
      let text : until_nul (overlay (b ∷ message) buffer)
          ≡ until_nul (overlay (b ∷ message) (buffer_after log)) =
        ap (λ x. until_nul (overlay (b ∷ message) x)) (sym h.1) in
      (
        ap (λ x. until_nul (overlay (b ∷ message) buffer) ∷ x) h.0.0 ∙ ap (λ x. x ∷ heard log) text,
        ap (λ x. until_nul (overlay (b ∷ message) buffer) ∷ x) h.0.1 ∙ ap (λ x. x ∷ heard log) text,
        ap (overlay (b ∷ message)) h.1,
      )

  hear-Triple :
      {n : ℕ} {ds : List ℕ} (buffer : Bytes)
      → Triple Echoes
          (Stage (At buffer) (suc n) ds)
          (Received (At buffer) (Owes buffer) n ds)
          (receive 1024)
  hear-Triple buffer =
      relax (λ l h. h.0) (receive-Triple (At-quiet buffer) (Owes buffer) (owes buffer) 1024 one_of)

  shut-Triple :
      {n client : ℕ} {G : List Event → Type 0}
      → ((l : List Event) → G l → Echoes l)
      → Triple Echoes (Stage G n (client ∷ [])) (λ _. Stage Echoes (suc n) []) (close client)
  shut-Triple {client = client} more = weaken (record {
    ends = λ p h.
        (close-Triple Echoes {fd = client} (λ l g. g)).ends p
          (record { open_ones = h.open_ones; logged = more p.log h.logged; fuelled = h.fuelled });
  })

  -- It is printed first.
  show_next :
      {n : ℕ} {ds : List ℕ} (buffer : Bytes) (b : ℕ) (message : Bytes)
      → let text = until_nul (overlay (b ∷ message) buffer) in
        Triple Echoes
          (Stage (Owes buffer (b ∷ message)) n ds)
          (λ _. Stage (λ l. At (overlay (b ∷ message) buffer) (sent text ∷ l)) n ds)
          (show_text text)
  show_next buffer b message = record {
    ends = λ p h. record {
      open_ones = h.open_ones;
      logged = ((h.logged.0, h.logged.1), h.logged.2);
      fuelled = h.fuelled;
    };
  }

  send_next :
      {n : ℕ} {ds : List ℕ} (buffer : Bytes) (b : ℕ) (message : Bytes)
      → let text = until_nul (overlay (b ∷ message) buffer) in
        Triple Echoes
          (Stage (λ l. At (overlay (b ∷ message) buffer) (sent text ∷ l)) n ds)
          (λ _. Stage (At (overlay (b ∷ message) buffer)) n ds)
          (succeeds (sent text))
  send_next buffer b message =
      let after = overlay (b ∷ message) buffer in
      relax (λ l h. h.0)
        (succeeds-Triple (At-quiet after) (sent (until_nul after)) none_of λ l h. h)

  heard-Triple :
      {n : ℕ} (client : ℕ) (buffer message : Bytes) (rest : Bytes → Program (Unit {0}))
      → ((after : Bytes)
          → Triple Echoes (Stage (At after) n (client ∷ [])) (λ _. Stage Echoes n []) (rest after))
      → Triple Echoes
          (Stage (Owes buffer message) n (client ∷ []))
          (λ _. Stage Echoes (suc n) [])
          (if is_empty message then close client else (do
            show_text (until_nul (overlay message buffer))
            succeeds (sent (until_nul (overlay message buffer)))
            rest (overlay message buffer)))
  heard-Triple client buffer [] rest goes_on = shut-Triple λ l h. h
  heard-Triple client buffer (b ∷ message) rest goes_on = show_next buffer b message then_do λ _.
      send_next buffer b message then_do λ _. weaken (goes_on (overlay (b ∷ message) buffer))

  handle_client-Triple :
      (n client : ℕ) (buffer : Bytes)
      → Triple Echoes
          (Stage (At buffer) n (client ∷ []))
          (λ _. Stage Echoes n [])
          (handle_client n client buffer)
  unfolding handle_client
  handle_client-Triple zero client buffer = no_rounds-Triple
  handle_client-Triple (suc n) client buffer = hear-Triple buffer then_do λ received.
      option-Triple (Received (At buffer) (Owes buffer) n (client ∷ [])) received
        (shut-Triple λ l h. h.0)
        λ message.
          heard-Triple client buffer message (λ after. handle_client n client after)
            λ after. handle_client-Triple n client after

-- Whatever the calls answer, the thread of a client prints, and sends, in order, the texts that it takes the
-- messages received for, and nothing else: a message that is not empty, with what the earlier ones have left
-- behind it in the buffer, up to a NUL. It returns with the client's socket closed, or waits in a call, and a
-- bound on its rounds above the number of answers is enough.
pub thread-Echoes :
    (n client : ℕ) (buffer : Bytes) (answers : List Answer)
    → length answers < n
    → Ensures
        (λ _. Stage (Echoes buffer) n [])
        (Clean (Echoes buffer))
        (Waits (Echoes buffer))
        (handle_client n client buffer
          (record { answers = answers; descriptors = client ∷ []; log = [] }))
thread-Echoes n client buffer answers h =
    (handle_client-Triple buffer n client buffer).ends _
      (record { open_ones = refl; logged = ((refl, refl), refl); fuelled = h })
