-- ===== src/Conversation/Coordinator/Drain.antt =====
-- A worker answers all that waits in its queue, and ends.
use luna_agent.Prelude.{
  ℕ, suc, String, ◌≡◌, refl, sym, ap, ◌∙◌, subst, ◌⊎◌, inl, inr, Bool, Bool-cases, true, false,
  Option, none, some, List, [], ◌∷◌, arith, ◌==◌, ==_iff, All-map, ==_self, String_eq, ℕ_eq, length,
  All,
}
use luna_agent.Prelude.Dict
use luna_agent.Prelude.Dict.{Dict, get-put, get-remove}
use luna_agent.Conversation.Submission.{SubmissionRequest, SubmissionOutcome}
use luna_agent.Conversation.Message.{Json}
use luna_agent.Conversation.Ledger.{Payload}
use luna_agent.Conversation.Coordinator.{
  done, QueuedSubmission, waiting, running, Coordinator, queue_of, is_done,
}
use luna_agent.Conversation.Coordinator.Fifo.{answer_queues}
use luna_agent.Conversation.Coordinator.Queue.{queue_of-put, queue_of-remove}
use luna_agent.Conversation.Coordinator.Serve.{
  Answers, answers_of, set_result, take_item, begin_with, begin_item, leave_with, answer_item,
  run_item, finish_with, finish_item, run_session,
}

-- The worker of a session that waits before some items.
record Waits {M : Type 0} (c : Coordinator M) (session : String) (items : List QueuedSubmission)
    : Type 0 where
  queue : queue_of c.queues session ≡ items
  worker : Dict.get c.workers session ≡ some waiting
  inactive : Dict.get c.active session ≡ none

-- After a round: the rest waits, or the worker has ended.
abbrev Rests : {M : Type 0} → Coordinator M → String → List QueuedSubmission → Type 0
Rests c session [] =
    (queue_of c.queues session ≡ [])
    × (Dict.get c.workers session ≡ none)
    × (Dict.get c.active session ≡ none)
Rests c session (item ∷ items) = Waits c session (item ∷ items)

-- A future that changes was pending, and has an outcome afterwards.
Moves : {M : Type 0} → Coordinator M → Coordinator M → Type 0
Moves {M} c c' =
    (future : ℕ)
    → (Dict.get c'.futures future ≡ Dict.get c.futures future)
      ⊎ (((o : SubmissionOutcome M) × (Dict.get c'.futures future ≡ some (done o)))
          × (is_done (Dict.get c.futures future) ≡ false))

Moves-done :
    {M : Type 0} (c c' : Coordinator M) (future : ℕ)
    → Moves c c'
    → is_done (Dict.get c.futures future) ≡ true
    → is_done (Dict.get c'.futures future) ≡ true
unfolding Moves
Moves-done c c' future moves d = elim (moves future) [
  | inl same ↦ ap is_done same ∙ d
  | inr ((o, now), before) ↦ ap is_done now
]

Moves-trans : {M : Type 0} (a b c : Coordinator M) → Moves a b → Moves b c → Moves a c
unfolding Moves
Moves-trans a b c first then future = elim (first future) [
  | inl same ↦ elim (then future) [
    | inl same' ↦ inl (same' ∙ same)
    | inr (now, before) ↦ inr (now, ap is_done (sym same) ∙ before)
  ]
  | inr ((o, now), before) ↦ elim (then future) [
    | inl same' ↦ inr ((o, same' ∙ now), before)
    | inr (now', before') ↦ inr (now', before)
  ]
]

-- The future has an outcome, or it had ended before and is as it was.
abbrev pub Answered : {M : Type 0} → Coordinator M → Coordinator M → ℕ → Type 0
Answered {M} c c' future =
    ((o : SubmissionOutcome M) × (Dict.get c'.futures future ≡ some (done o)))
    ⊎ ((is_done (Dict.get c.futures future) ≡ true)
        × (Dict.get c'.futures future ≡ Dict.get c.futures future))

Moves-Answered :
    {M : Type 0} (c c' : Coordinator M) (future : ℕ)
    → Moves c c'
    → is_done (Dict.get c'.futures future) ≡ true
    → Answered c c' future
unfolding Moves
Moves-Answered c c' future moves d = elim (moves future) [
  | inl same ↦ inr (ap is_done (sym same) ∙ d, same)
  | inr (now, before) ↦ inl now
]

module _ {M : Type 0} (json : Json M) (digest : Payload → String) (has_ledger : Bool) where
  set_result_moves :
      (c : Coordinator M) (future : ℕ) (o : SubmissionOutcome M)
      → Moves c (set_result json digest has_ledger c future o)
  unfolding set_result Moves
  set_result_moves c future o f = elim (Bool-cases (is_done (Dict.get c.futures future))) [
    | inl ended ↦ rw (ended, set_result) (inl refl)
    | inr open_future ↦
        rw (open_future, set_result)
          (elim (Bool-cases (future == f)) [
            | inl same ↦ inr (
              (o, get-put c.futures future (done o) f ∙ (ground (arith, same))),
              ground (arith, open_future, ==_iff future f, same),
            )
            | inr other ↦ inl (get-put c.futures future (done o) f ∙ (ground (arith, other)))
          ])
  ]

  set_result_done :
      (c : Coordinator M) (future : ℕ) (o : SubmissionOutcome M)
      → (is_done (Dict.get (set_result json digest has_ledger c future o).futures future) ≡ true)
        × Moves c (set_result json digest has_ledger c future o)
  unfolding set_result Moves
  set_result_done c future o = (
    ground (arith, get-put c.futures future (done o) future, ==_self future),
    λ f. set_result_moves c future o f,
  )

  -- The request that the worker runs is answered, whether it was cancelled or not.
  answer_done :
      (c : Coordinator M) (item : QueuedSubmission) (a : Answers M)
      (active : Option SubmissionRequest)
      → ((active ≡ none) → is_done (Dict.get c.futures item.future) ≡ true)
      → (is_done (Dict.get (answer_item json digest has_ledger c item a active).futures item.future)
          ≡ true)
        × Moves c (answer_item json digest has_ledger c item a active)
  unfolding answer_item Moves
  answer_done c item a none h = (h refl, λ f. inl refl)
  answer_done c item a (some r) h =
      let ran = run_item json digest has_ledger c.rows item.request a in
      set_result_done (record c { rows = ran.0 }) item.future ran.1

  leave_rests :
      (c : Coordinator M) (session : String) (items : List QueuedSubmission)
      → queue_of c.queues session ≡ items
      → Rests (leave_with json digest has_ledger c session items) session items
  unfolding leave_with
  leave_rests c session [] e = (
    queue_of-remove c.queues session session ∙ (ground (arith, ==_self session)),
    get-remove c.workers session session ∙ (ground (arith, ==_self session)),
    get-remove c.active session session ∙ (ground (arith, ==_self session)),
  )
  leave_rests c session (item ∷ items) e = record {
    queue = e;
    worker = get-put c.workers session waiting session ∙ (ground (arith, ==_self session));
    inactive = get-remove c.active session session ∙ (ground (arith, ==_self session));
  }

  leave_futures :
      (c : Coordinator M) (session : String) (items : List QueuedSubmission)
      → (leave_with json digest has_ledger c session items).futures ≡ c.futures
  unfolding leave_with
  leave_futures c session [] = refl
  leave_futures c session (item ∷ items) = refl

  Moves-leave :
      (c t x : Coordinator M) (session : String) (items : List QueuedSubmission)
      → Moves c t
      → Moves t x
      → Moves c (leave_with json digest has_ledger x session items)
  unfolding Moves
  Moves-leave c t x session items h k f =
      let futures = leave_futures x session items in
      elim (Moves-trans c t x h k f) [
        | inl same ↦ inl (ap (λ d. Dict.get d f) futures ∙ same)
        | inr ((o, now), before) ↦ inr ((o, ap (λ d. Dict.get d f) futures ∙ now), before)
      ]

  taken_done :
      (c : Coordinator M) (session : String) (item : QueuedSubmission)
      (items : List QueuedSubmission)
      → Dict.get c.active session ≡ none
      → let t = take_item json digest has_ledger c session item items in
        (Dict.get t.active session ≡ none) → is_done (Dict.get t.futures item.future) ≡ true
  unfolding take_item
  taken_done c session item items inactive e =
      ground (arith, inactive, e, get-put c.active session item.request session, ==_self session)

  answered_queue :
      (c : Coordinator M) (session : String) (item : QueuedSubmission)
      (items : List QueuedSubmission) (a : Answers M) (active : Option SubmissionRequest)
      → let t = take_item json digest has_ledger c session item items in
        queue_of (answer_item json digest has_ledger t item a active).queues session ≡ items
  unfolding take_item
  answered_queue c session item items a active =
      ap (λ q. queue_of q session)
        (answer_queues json digest (λ r. "") has_ledger
          (take_item json digest has_ledger c session item items) item a active)
      ∙ (queue_of-put c.queues session items session ∙ (ground (arith, ==_self session)))

  abbrev round_of : Coordinator M → String → Answers M → Coordinator M
  round_of c session a =
      finish_item json digest has_ledger (begin_item json digest has_ledger c session).0 session a

  begin_is :
      (c : Coordinator M) (session : String) (item : QueuedSubmission)
      (items : List QueuedSubmission)
      → Waits c session (item ∷ items)
      → begin_item json digest has_ledger c session
        ≡ (take_item json digest has_ledger c session item items, item ∷ [])
  unfolding begin_item begin_with
  begin_is c session item items w =
      ap (λ o. begin_with json digest has_ledger c session o (queue_of c.queues session)) w.worker
      ∙ ap (λ l. begin_with json digest has_ledger c session (some waiting) l) w.queue

  round_is :
      (c : Coordinator M) (session : String) (item : QueuedSubmission)
      (items : List QueuedSubmission) (a : Answers M)
      → Waits c session (item ∷ items)
      → let t = take_item json digest has_ledger c session item items in
        round_of c session a
        ≡ leave_with json digest has_ledger
            (answer_item json digest has_ledger t item a (Dict.get t.active session))
            session
            items
  unfolding finish_item finish_with take_item
  round_is c session item items a w =
      let t = take_item json digest has_ledger c session item items in
      let x = answer_item json digest has_ledger t item a (Dict.get t.active session) in
      let taken : Dict.get t.workers session ≡ some (running item) =
        get-put c.workers session (running item) session ∙ (ground (arith, ==_self session)) in
      ap (λ r. finish_item json digest has_ledger r.0 session a) (begin_is c session item items w)
      ∙ ap (λ o. finish_with json digest has_ledger t session a o) taken
      ∙ ap (λ l. leave_with json digest has_ledger x session l)
          (answered_queue c session item items a (Dict.get t.active session))

  round :
      (c : Coordinator M) (session : String) (item : QueuedSubmission)
      (items : List QueuedSubmission) (a : Answers M)
      → Waits c session (item ∷ items)
      → Rests (round_of c session a) session items
        × (is_done (Dict.get (round_of c session a).futures item.future) ≡ true)
        × Moves c (round_of c session a)
  unfolding take_item Moves
  round c session item items a w =
      let t = take_item json digest has_ledger c session item items in
      let active = Dict.get t.active session in
      let x = answer_item json digest has_ledger t item a active in
      let answered = answer_done t item a active (taken_done c session item items w.inactive) in
      subst
        (λ c'.
          Rests c' session items × (is_done (Dict.get c'.futures item.future) ≡ true) × Moves c c')
        (sym (round_is c session item items a w))
        (
          leave_rests x session items (answered_queue c session item items a active),
          ap (λ f. is_done (Dict.get f item.future)) (leave_futures x session items) ∙ answered.0,
          Moves-leave c t x session items (λ f. inl refl) answered.1,
        )

  rounds :
      (answers : SubmissionRequest → Answers M) (c : Coordinator M) (session : String)
      (item : QueuedSubmission) (items : List QueuedSubmission)
      → Waits c session (item ∷ items)
      → (c' : Coordinator M) × (run_session json digest has_ledger answers
            (suc (length items))
            c
            session
          ≡ some c')
        × Rests c' session []
        × All (λ i. is_done (Dict.get c'.futures i.future) ≡ true) (item ∷ items)
        × Moves c c'
  unfolding run_session Moves
  rounds answers c session item [] w =
      let a = answers_of answers (begin_item json digest has_ledger c session).1 in
      let facts = round c session item [] a w in
      (round_of c session a, ground (arith, facts.0), facts.0, (facts.1, tt), facts.2)
  rounds answers c session item (next_item ∷ items) w =
      let a = answers_of answers (begin_item json digest has_ledger c session).1 in
      let facts = round c session item (next_item ∷ items) a w in
      let (last, ran, ended, all_done, stays) =
        rounds answers (round_of c session a) session next_item items facts.0 in
      (
        last,
        ground (arith, facts.0.worker, ran),
        ended,
        (Moves-done (round_of c session a) last item.future stays facts.1, all_done),
        Moves-trans c (round_of c session a) last facts.2 stays,
      )

  -- A worker that waits before some items, with no request of its session active, ends after as
  -- many rounds as there are items where nothing else happens meanwhile: the queue is empty, the
  -- session has no worker and no active request, and the future of each item has an outcome, or had
  -- ended before and is as it was.
  pub run_session_drains :
      (answers : SubmissionRequest → Answers M) (c : Coordinator M) (session : String)
      (item : QueuedSubmission) (items : List QueuedSubmission)
      → queue_of c.queues session ≡ item ∷ items
      → Dict.get c.workers session ≡ some waiting
      → Dict.get c.active session ≡ none
      → (c' : Coordinator M) × (run_session json digest has_ledger answers
            (suc (length items))
            c
            session
          ≡ some c')
        × (queue_of c'.queues session ≡ [])
        × (Dict.get c'.workers session ≡ none)
        × (Dict.get c'.active session ≡ none)
        × All (λ i. Answered c c' i.future) (item ∷ items)
  run_session_drains answers c session item items queue worker inactive =
      let (last, ran, ended, all_done, moves) =
        rounds answers c session item items
          (record { queue = queue; worker = worker; inactive = inactive }) in
      (
        last,
        ran,
        ended.0,
        ended.1,
        ended.2,
        All-map (λ i d. Moves-Answered c last i.future moves d) (item ∷ items) all_done,
      )
