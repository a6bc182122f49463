-- ===== src/Sockets/Lines.antt =====
-- The lines that the clients of "16 work/socket work 1" send.
use home_work.Base.{ℕ, suc, ◌≡◌, refl, List, [], ◌∷◌, none, some, Bool, true, not}
use home_work.Libc.{Bytes}
use home_work.Posix.{Event, did, sent}
use home_work.Posix.Ensures.{Stage, one_of, quiet_did, quiet_closed, Triple, ◌then_do◌}
use home_work.Posix.Rules.{ask-Triple, pure-Triple}
use home_work.Base.{◌&&◌, ◌==◌, Bool-cases, inl, inr, take}
use home_work.Posix.{read_line}
use home_work.Posix.Ensures.{IsQuiet}
use home_work.Text.{until_nul}
use home_work.Sockets.{cut_line, type_line}
use home_work.Sockets.Messages.{sent_messages}

abbrev is_line : Bytes → Bool
is_line [] = true
is_line (c ∷ cs) = not (c == 10) && is_line cs

abbrev all_lines : List Bytes → Bool
all_lines [] = true
all_lines (b ∷ bs) = is_line b && all_lines bs

-- No message sent has a newline in it.
abbrev pub SendsLines : List Event → Type 0
SendsLines log = all_lines (sent_messages log) ≡ true

pub SendsLines-quiet :
    (e : Event) (log : List Event) → IsQuiet e → SendsLines log → SendsLines (e ∷ log)
SendsLines-quiet _ log quiet_did h = h
SendsLines-quiet _ log quiet_closed h = h

cut_line-is_line : (b : Bytes) → is_line (cut_line b) ≡ true
unfolding cut_line
cut_line-is_line [] = refl
cut_line-is_line (c ∷ cs) = elim (Bool-cases (c == 10)) [
  | inl e ↦ rw (e, is_line) refl
  | inr e ↦ rw (e, is_line, e) (cut_line-is_line cs)
]

may_send_line :
    (b : Bytes) (log : List Event) → SendsLines log → SendsLines (sent (cut_line b) ∷ log)
may_send_line b log h = rw (cut_line-is_line b) h

-- The clients' line may be sent, and the call has taken an answer.
pub type_line-Triple :
    (buffer : Bytes) {n : ℕ} {ds : List ℕ}
    → Triple SendsLines
        (Stage SendsLines (suc n) ds)
        (λ line. Stage (λ l. SendsLines (sent line ∷ l)) n ds)
        (type_line buffer)
unfolding type_line
type_line-Triple buffer = ask-Triple SendsLines (did read_line) one_of (λ l h. h) then_do λ a.
    pure-Triple SendsLines λ p h. record {
      open_ones = h.open_ones;
      logged =
          may_send_line (elim a.value [ none ↦ buffer | some n ↦ until_nul (take 1023 a.payload) ])
            p.log h.logged;
      fuelled = h.fuelled;
    }
