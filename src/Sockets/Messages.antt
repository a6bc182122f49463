-- ===== src/Sockets/Messages.antt =====
-- The messages in the log of a socket program, and the replies that are due for them.
use home_work.Base.{ℕ, List, [], ◌∷◌, ◌++◌, Option, none, some, ◌≡◌, sym, ap, ◌∙◌, reverse}
use home_work.Libc.{Bytes}
use home_work.Text.{until_nul, reverse_string}
use home_work.Text.Reverse.{reverse_string-reverse}
use home_work.Posix.{Call, Event, did, got, sent, closed, shown, Process, done, fault}
use home_work.Posix.Ensures.{
  Ensures, Stage, IsQuiet, quiet_did, quiet_closed, none_of, Triple, Clean, Waits, ◌then_do◌,
}
use home_work.Posix.Rules.{show_text-Triple, ask-Triple, option-Triple, pure-Triple}
use home_work.Sockets.{print_address, reverse_buffer, reverse_message}

pub print_address-Triple :
    {Good : List Event → Type 0}
    (quiet : (e : Event) (l : List Event) → IsQuiet e → Good l → Good (e ∷ l))
    (says : (b : Bytes) (l : List Event) → Good l → Good (shown b ∷ l)) {n : ℕ} {ds : List ℕ}
    (c : Call)
    → Triple Good (Stage Good n ds) (λ _. Stage Good n ds) (print_address c)
unfolding print_address
print_address-Triple {Good} quiet says c =
    ask-Triple Good (did c) none_of (λ l. quiet (did c) l quiet_did) then_do λ a.
    option-Triple (λ _. Stage Good _ _) a.value (pure-Triple Good λ p h. h)
      λ _. show_text-Triple Good a.payload (λ l. says a.payload l)

-- The messages sent, the newest first.
abbrev pub sent_messages : List Event → List Bytes
sent_messages [] = []
sent_messages (did c ∷ log) = sent_messages log
sent_messages (got b ∷ log) = sent_messages log
sent_messages (sent b ∷ log) = b ∷ sent_messages log
sent_messages (closed fd ∷ log) = sent_messages log
sent_messages (shown b ∷ log) = sent_messages log

-- The replies to the messages received, the newest first.
abbrev pub replies : (Bytes → List Bytes) → List Event → List Bytes
replies reply [] = []
replies reply (did c ∷ log) = replies reply log
replies reply (got b ∷ log) = reply b ++ replies reply log
replies reply (sent b ∷ log) = replies reply log
replies reply (closed fd ∷ log) = replies reply log
replies reply (shown b ∷ log) = replies reply log

-- The string in the message, reversed.
abbrev pub mirrored : Bytes → Bytes
mirrored message = reverse (until_nul message)

-- Every datagram has a reply.
abbrev pub datagram_reply : Bytes → List Bytes
datagram_reply message = mirrored message ∷ []

-- On a stream the empty message is its end.
abbrev pub stream_reply : Bytes → List Bytes
stream_reply [] = []
stream_reply (b ∷ bs) = mirrored (b ∷ bs) ∷ []

module _ (reply : Bytes → List Bytes) where
  -- The messages sent are the replies to the messages received, in their order.
  abbrev pub Answered : List Event → Type 0
  Answered log = sent_messages log ≡ replies reply log

  -- The same but for the reply to the last message.
  abbrev pub Owes : Bytes → List Event → Type 0
  Owes message log = reply message ++ sent_messages log ≡ replies reply log

  pub owes : (message : Bytes) (log : List Event) → Answered log → Owes message (got message ∷ log)
  owes message log h = ap (◌++◌ (reply message)) h

  pub quiet : (e : Event) (log : List Event) → IsQuiet e → Answered log → Answered (e ∷ log)
  quiet _ log quiet_did h = h
  quiet _ log quiet_closed h = h

  -- The next message sent may be `b`.
  abbrev pub MaySend : Bytes → List Event → Type 0
  MaySend b log = Answered (sent b ∷ log)

  may_send :
      {b message : Bytes}
      → b ≡ mirrored message
      → reply message ≡ mirrored message ∷ []
      → (log : List Event) → Owes message log
      → MaySend b log
  may_send e r log h =
      ap (λ m. m ∷ sent_messages log) e ∙ sym (ap (λ x. x ++ sent_messages log) r) ∙ h

  reversed-ends :
      {n : ℕ} {ds : List ℕ} (message : Bytes) (p : Process) (o : Option Bytes)
      → o ≡ some (mirrored message)
      → reply message ≡ mirrored message ∷ []
      → Stage (Owes message) n ds p
      → Ensures
          (λ b. Stage (MaySend b) n ds)
          (Clean Answered)
          (Waits Answered)
          (elim o [ none ↦ fault | some b ↦ done b p ])
  reversed-ends message p none e r h = absurd (cc e)
  reversed-ends message p (some b) e r h = record {
    open_ones = h.open_ones;
    logged = may_send (cc e) r p.log h.logged;
    fuelled = h.fuelled;
  }

  pub reverse_buffer-Triple :
      {n : ℕ} {ds : List ℕ} (message : Bytes)
      → reply message ≡ mirrored message ∷ []
      → Triple Answered
          (Stage (Owes message) n ds)
          (λ b. Stage (MaySend b) n ds)
          (reverse_buffer (until_nul message))
  unfolding reverse_buffer
  reverse_buffer-Triple message r = record {
    ends = λ p h.
        reversed-ends message p (reverse_string (until_nul message))
          (reverse_string-reverse (until_nul message)) r h;
  }

  pub reverse_message-Triple :
      {n : ℕ} {ds : List ℕ} (message : Bytes)
      → reply message ≡ mirrored message ∷ []
      → Triple Answered
          (Stage (Owes message) n ds)
          (λ b. Stage (MaySend b) n ds)
          (reverse_message message)
  unfolding reverse_message
  reverse_message-Triple message r =
      show_text-Triple Answered (until_nul message) (λ l h. h) then_do λ _.
      reverse_buffer-Triple message r
