-- ===== src/Posix/Pairs.antt =====
-- The rules for a program that closes its two descriptors in the order in which it opened them.
use home_work.Base.{ℕ, ◌≡◌, ap, ◌∙◌, List, [], ◌∷◌, arith}
use home_work.Posix.{
  Call, Event, closed, Process, Program, ◌>>◌, close, close_all, erase_one, exit, give_up, check,
  open_or_give_up,
}
use home_work.Posix.Ensures.{Stage, Spends, IsQuiet, quiet_closed, Triple, ◌then_do◌}
use home_work.Posix.Rules.{
  pure-Triple, if-Triple, option-Triple, succeeds-Triple, open_with-Triple, opened_too, exit-Triple,
}

pub erase_pair : (a b : ℕ) → erase_one b (erase_one a (b ∷ a ∷ [])) ≡ []
erase_pair a b = ground arith

module _ {Good : List Event → Type 0}
    (quiet : (e : Event) (l : List Event) → IsQuiet e → Good l → Good (e ∷ l)) {n : ℕ}
    {a b : ℕ} where
  pub close_pair-Triple :
      {A : Type 0} {P : A → Process → Type 0} {k : Program A}
      → Triple Good (Stage Good n []) P k
      → Triple Good (Stage Good n (b ∷ a ∷ [])) P (close a >> (close b >> k))
  unfolding close
  close_pair-Triple next = record {
    ends = λ p h. next.ends _ (record {
      open_ones = ap (λ ds. erase_one b (erase_one a ds)) h.open_ones ∙ erase_pair a b;
      logged =
          quiet (closed b) (closed a ∷ p.log) quiet_closed
            (quiet (closed a) p.log quiet_closed h.logged);
      fuelled = h.fuelled;
    });
  }

  pub give_up_pair-Triple :
      {A : Type 0} {P : A → Process → Type 0}
      → Triple Good (Stage Good n (b ∷ a ∷ [])) P (give_up (a ∷ b ∷ []))
  unfolding give_up close_all
  give_up_pair-Triple {A = A} {P = P} = record {
    ends = λ p h. (close_pair-Triple {A = A} {P = P} {k = exit 1} (exit-Triple 1)).ends p h;
  }

  pub check_pair-Triple :
      {m : ℕ} {G : List Event → Type 0} (e : Event)
      → Spends m n
      → ((l : List Event) → G l → Good (e ∷ l))
      → Triple Good (Stage G m (b ∷ a ∷ [])) (λ _. Stage Good n (b ∷ a ∷ [])) (check (a ∷ b ∷ []) e)
  unfolding check
  check_pair-Triple e s logs = succeeds-Triple quiet e s logs then_do λ ok.
      if-Triple ok (pure-Triple Good λ p h. h) give_up_pair-Triple

  pub open_pair-Triple :
      {m : ℕ} (c : Call)
      → Spends m n
      → Triple Good
          (Stage Good m (b ∷ a ∷ []))
          (λ fd. Stage Good n (fd ∷ b ∷ a ∷ []))
          (open_or_give_up (a ∷ b ∷ []) c)
  unfolding open_or_give_up
  open_pair-Triple c s = open_with-Triple quiet c s then_do λ o.
      option-Triple (λ x. Stage Good n (opened_too x (b ∷ a ∷ []))) o give_up_pair-Triple
        λ fd. record { ends = λ p h. h }
