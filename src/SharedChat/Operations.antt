-- ===== src/SharedChat/Operations.antt =====
-- What a whole operation of "14 work/task2" does to the log.
use home_work.Base.{
  ℕ, ◌-◌, ◌<◌, List, [], ◌∷◌, ◌++◌, none, some, true, false, ◌≡◌, refl, ltb, get_elem?, set, length,
  take, drop, take-append-drop, arith, ap, sym, ◌∙◌, lt→ltb, get_elem?-set_self, append-nil,
  length-append,
}
use mathlib.Core.Path.{subst}
use home_work.Libc.{Bytes, strn_eq}
use home_work.SharedChat.{
  Message, SharedMemory, max_messages, free, receiving, posting, Client, Chat, quit_text, print_new,
  store_message, count_message, post, count, receive, settle, ran, fits, fault, printed, act, step,
  run,
}
use home_work.SharedChat.Loops.{
  posts, reads, acts_of, foreign, foreign-append, foreign_own, foreign-foreign, set-behind,
  one_further, print_new-log,
}
use home_work.SharedChat.States.{
  Shown, Holds, Good, take-length, take-front, two_acts, changed-Good, inside,
}

one_left :
    (rest : List Message)
    → 0 < length rest
    → (old : Message) × (more : List Message) × (rest ≡ old ∷ more)
one_left [] h = absurd (omega arith)
one_left (old ∷ more) h = (old, more, refl)

module _ (names : List Bytes) (log : List Message) (w : Chat) (c : ℕ) (k : Client)
    (g : Good names log w) (at : get_elem? w.clients c ≡ some k) where
  -- The client is free and the memory is `log ++ rest`.
  receives :
      act receive k.doing w.shm k
      ≡ ran w.shm (record {
        name = k.name;
        last_received_msg = k.last_received_msg;
        doing = receiving;
        message_win = k.message_win ++ foreign k.name (drop k.last_received_msg log);
      })
  unfolding act
  receives =
      let mine = g.each c k at in
      let n = k.last_received_msg in
      let lines : print_new k.name (w.shm.client_count - n) n w.shm.messages
          ≡ some (foreign k.name (drop n log)) =
        rw (g.holds.memory, g.holds.counted) (print_new-log k.name n log g.holds.rest mine.seen) in
      rw mine.is_free (ap (printed w.shm (record k { doing = free })) lines)

  all_shown :
      foreign k.name (k.message_win ++ foreign k.name (drop k.last_received_msg log))
      ≡ foreign k.name (take (length log) log)
  all_shown =
      let mine = g.each c k at in
      let n = k.last_received_msg in
      foreign-append k.name k.message_win (foreign k.name (drop n log))
      ∙ ap (λ xs. foreign k.name k.message_win ++ xs) (foreign-foreign k.name (drop n log))
      ∙ ap (λ xs. xs ++ foreign k.name (drop n log)) mine.shown
      ∙ sym (foreign-append k.name (take n log) (drop n log))
      ∙ ap (foreign k.name) (take-append-drop n log ∙ sym (take-length log))

  pub reads-Good :
      (w' : Chat) × (run (acts_of (reads c)) w ≡ some w')
      × Good names (log ++ []) w'
      × (k' : Client) × (get_elem? w'.clients c ≡ some k')
      × (k'.last_received_msg ≡ length log)
      × (k'.name ≡ k.name)
  unfolding act
  reads-Good =
      let k' : Client = record {
        name = k.name;
        last_received_msg = w.shm.client_count;
        doing = free;
        message_win = k.message_win ++ foreign k.name (drop k.last_received_msg log);
      } in
      let new : Shown log k' = record {
        is_free = refl;
        seen = omega (arith, g.holds.counted);
        shown = rw g.holds.counted all_shown;
      } in
      (
        record { shm = w.shm; clients = set w.clients c k' },
        two_acts c receive settle w at receives refl,
        changed-Good [] c g at refl (subst (λ l. Holds l w.shm) (sym (append-nil log)) g.holds)
            (subst (λ l. Shown l k') (sym (append-nil log)) new),
        k',
        get_elem?-set_self w.clients c k' (inside w.clients c k at),
        g.holds.counted,
        refl,
      )

  own_line :
      (input : Bytes)
      → let msg : Message = record { name = k.name; text = input } in
        foreign k.name (k.message_win ++ (msg ∷ []))
        ≡ foreign k.name (take k.last_received_msg (log ++ (msg ∷ [])))
  own_line input =
      let mine = g.each c k at in
      let msg : Message = record { name = k.name; text = input } in
      foreign-append k.name k.message_win (msg ∷ [])
      ∙ ap (λ xs. foreign k.name k.message_win ++ xs) (foreign_own k.name input)
      ∙ append-nil (foreign k.name k.message_win)
      ∙ mine.shown
      ∙ ap (foreign k.name) (sym (take-front k.last_received_msg log (msg ∷ []) mine.seen))

  pub posts-Good :
      (input : Bytes)
      → strn_eq 5 input quit_text ≡ false
      → fits k.name input ≡ true
      → length log < max_messages
      → (w' : Chat) × (run (acts_of (posts c input)) w ≡ some w')
        × Good names (log ++ (record { name = k.name; text = input } ∷ [])) w'
  unfolding act store_message
  posts-Good input stay short room =
      let mine = g.each c k at in
      let msg : Message = record { name = k.name; text = input } in
      let (old, rest, e) = one_left g.holds.rest (omega (arith, g.holds.size)) in
      let stored_at : SharedMemory = record {
        client_count = w.shm.client_count;
        messages = set w.shm.messages w.shm.client_count msg;
      } in
      let k' : Client = record k { doing = posting input } in
      let k'' : Client = record k { doing = free; message_win = k.message_win ++ (msg ∷ []) } in
      let space : ltb w.shm.client_count max_messages ≡ true =
        lt→ltb w.shm.client_count max_messages (omega (arith, g.holds.counted)) in
      let first : act (post input) k.doing w.shm k ≡ ran stored_at k' =
        rw (mine.is_free, short, stay) (rw (space, store_message) refl) in
      (
        record { shm = count_message stored_at; clients = set w.clients c k'' },
        two_acts c (post input) count w at first refl,
        changed-Good (msg ∷ []) c g at refl
            (record {
              rest = rest;
              memory =
                  rw (g.holds.memory, e, g.holds.counted)
                    (set-behind log old msg rest ∙ sym (one_further log msg rest));
              size = omega (arith, g.holds.size, length-append log (msg ∷ []), ap length e);
              counted = omega (arith, g.holds.counted, length-append log (msg ∷ []));
            })
            (record {
              is_free = refl;
              seen = omega (arith, mine.seen, length-append log (msg ∷ []));
              shown = own_line input;
            }),
      )

  -- A full memory.
  pub posts_over :
      (input : Bytes)
      → strn_eq 5 input quit_text ≡ false
      → fits k.name input ≡ true
      → length log ≡ max_messages
      → run (acts_of (posts c input)) w ≡ none
  unfolding run step act store_message
  posts_over input stay short full =
      let mine = g.each c k at in
      let no_space : ltb w.shm.client_count max_messages ≡ false =
        rw (g.holds.counted, full) refl in
      let over : act (post input) k.doing w.shm k ≡ fault =
        rw (mine.is_free, short, stay) (rw (no_space, store_message) refl) in
      rw (at, step) (rw over refl)
