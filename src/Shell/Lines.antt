-- ===== src/Shell/Lines.antt =====
-- What the shell of "12 work/task3.c" does with a line.
use home_work.Base.{◌≡◌, List, [], ◌∷◌, Option, none, some, length, ◌<◌}
use home_work.Libc.{Bytes}
use home_work.Posix.{Call, execute, Event, did, got, sent, closed, shown, Run}
use home_work.Posix.Ensures.{Ensures, Clean, Waits}
use home_work.Shell.Words.{words}
use home_work.Shell.Pipes.{Wiring, unwired, wiring, Connects}

module _ (args : List Bytes) where
  abbrev pub StartsPlain : Call → Wiring → Type 0
  StartsPlain (execute other) w = (other ≡ args) × (w ≡ unwired)
  StartsPlain c w = Unit {0}

  -- The only program that is started is that of `args`, with the input and the output of the shell.
  abbrev pub Plain : List Event → Type 0
  Plain [] = Unit {0}
  Plain (did c ∷ log) = StartsPlain c (wiring log) × Plain log
  Plain (got message ∷ log) = Plain log
  Plain (sent message ∷ log) = Plain log
  Plain (closed fd ∷ log) = Plain log
  Plain (shown line ∷ log) = Plain log

  abbrev Unwired : List Event → Type 0
  Unwired log = (wiring log ≡ unwired) × Plain log

-- The run of a process for a line and its two sides of the first bar.
abbrev pub Interprets : Bytes → Option (Bytes × Bytes) → Run (Unit {0}) → Type 0
Interprets line none r =
    Ensures (λ _ p. Clean (Plain (words line)) p) (Clean (Plain (words line)))
      (Waits (Plain (words line))) r
Interprets line (some (front, behind)) r =
    Ensures (λ _ p. Clean (Connects (words front) (words behind)) p)
      (Clean (Connects (words front) (words behind)))
      (Waits (Connects (words front) (words behind))) r

-- Fewer than a hundred words in each command of a line.
abbrev pub FewWords : Bytes → Option (Bytes × Bytes) → Type 0
FewWords line none = length (words line) < 100
FewWords line (some (front, behind)) = (length (words front) < 100) × (length (words behind) < 100)
