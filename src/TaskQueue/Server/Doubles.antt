-- ===== src/TaskQueue/Server/Doubles.antt =====
-- What the server of "16 work/socket work 2/consProdServer.c" answers, and that its queue serves it.
use home_work.Base.{ℕ, ◌≡◌, List, [], ◌∷◌, map}
use home_work.Base.Int.{ℤ}
use home_work.Libc.{Bytes}
use home_work.Posix.{did, got, sent, closed, shown, Event, Process}
use home_work.Posix.Ensures.{Ensures, Stage}
use home_work.Sockets.Messages.{sent_messages}
use home_work.TaskQueue.{TaskQueue}
use home_work.TaskQueue.Refines.{Represents}
use home_work.TaskQueue.Server.{Environment, doubled, Variables}

-- The texts that are printed, the newest first.
abbrev pub shown_texts : List Event → List Bytes
shown_texts [] = []
shown_texts (did c ∷ log) = shown_texts log
shown_texts (got b ∷ log) = shown_texts log
shown_texts (sent b ∷ log) = shown_texts log
shown_texts (closed fd ∷ log) = shown_texts log
shown_texts (shown b ∷ log) = b ∷ shown_texts log

module _ (system : Environment) where
  abbrev pub answer : ℤ → Bytes
  answer d = system.write (doubled d)

  -- Each task that was received has had its answer, in order.
  abbrev pub Doubles : List Event → Type 0
  Doubles log =
      (tasks : List ℤ) × (sent_messages log ≡ map answer tasks)
      × (shown_texts log ≡ map system.write tasks)

  -- The same but for the task received last.
  abbrev Owes : ℤ → List Event → Type 0
  Owes d log =
      (tasks : List ℤ) × (sent_messages log ≡ map answer tasks)
      × (shown_texts log ≡ system.write d ∷ map system.write tasks)

  -- At the beginning of a round.
  abbrev Ready : (n server : ℕ) → Variables → Process → Type 0
  Ready n server variables p = Represents (variables.0) [] × Stage Doubles n (server ∷ []) p
