-- ===== src/Steer/Session.antt =====
-- What a sweep of one session's queue does to the manager, and the membership facts behind it.
use luna_agent.Prelude.{
  ℕ, suc, ◌≤◌, ◌≡◌, refl, ◌⊎◌, inl, ◌≢◌, true, false, List, [], ◌∷◌, arith, ◌==◌, ℕ_eq, String,
  String_eq, ==_iff, elem, Distinct, length, if◌then◌else◌,
}
use luna_agent.Prelude.Dict.{get-put, get-remove}
use luna_agent.Steer.{
  SteerManager, Objects, SteerSignal, Verdict, forget, Sweep, queue, sweep, store_back, sweep_queue,
  sweep_session,
}
use luna_agent.Steer.Scan.{
  chosen, left, chosen-subset, left-subset, sweep_selected, sweep_remaining, sweep_objects,
}

module _ (verdict : ℕ → SteerSignal → Verdict) (o : Objects) where
  pub length-left-le : (k : ℕ) (q : List ℕ) → length (left verdict o k q) ≤ length q
  length-left-le k [] = omega arith
  length-left-le k (x ∷ q) = ground (arith, length-left-le k q, length-left-le (suc k) q)

  pub left-Distinct : (k : ℕ) (q : List ℕ) → Distinct q → Distinct (left verdict o k q)
  left-Distinct k [] d = tt
  left-Distinct k (x ∷ q) d =
      ground
        (arith, left-Distinct k q d.1, left-Distinct (suc k) q d.1, left-subset verdict o x k q)

  pub left_or_chosen :
      (r k : ℕ) (q : List ℕ)
      → Distinct q
      → elem r (left verdict o k q) ≡ true
      → elem r (chosen verdict o k q) ≡ false
  left_or_chosen r k [] d h = refl
  left_or_chosen r k (x ∷ q) d h = ground (
    arith,
    ==_iff x r,
    left-subset verdict o x k q,
    chosen-subset verdict o x k q,
    left-subset verdict o x (suc k) q,
    left_or_chosen r k q d.1,
    left_or_chosen r (suc k) q d.1,
  )

  -- Without `forget` no reference gets lost.
  pub chosen_or_left :
      (r k : ℕ) (q : List ℕ)
      → ((j : ℕ) → verdict j (o r) ≢ forget)
      → elem r q ≡ true
      → (elem r (chosen verdict o k q) ≡ true) ⊎ (elem r (left verdict o k q) ≡ true)
  chosen_or_left r k [] keeps h = inl h
  chosen_or_left r k (x ∷ q) keeps h =
      ground
        (arith, ==_iff x r, keeps k, chosen_or_left r k q keeps, chosen_or_left r (suc k) q keeps)

queue-store_back :
    (m : SteerManager) (session : String) (s : Sweep) (rest : List ℕ) (j : String)
    → s.remaining ≡ rest
    → queue (store_back m session s) j ≡ (if session == j then rest else queue m j)
unfolding queue store_back
queue-store_back m session s [] j e = ground (arith, get-remove m.pendings session j)
queue-store_back m session s (r ∷ rest) j e =
    ground (arith, get-put m.pendings session s.remaining j)

-- The fields that a sweep leaves alone.
pub record IsSwept (m m' : SteerManager) : Type 0 where
  pub max_same : m'.max_pending_per_session ≡ m.max_pending_per_session
  pub turns_same : m'.active_turns ≡ m.active_turns
  pub recent_same : m'.recent ≡ m.recent
  pub made_same : m'.made ≡ m.made

module _ (verdict : ℕ → SteerSignal → Verdict) (mark : SteerSignal → SteerSignal) (m : SteerManager)
    (session : String) where
  store_back-IsSwept :
      (s : Sweep) (rest : List ℕ) → s.remaining ≡ rest → IsSwept m (store_back m session s)
  unfolding store_back
  store_back-IsSwept s [] e = ground arith
  store_back-IsSwept s (r ∷ rest) e = ground arith

  store_back_objects :
      (s : Sweep) (rest : List ℕ)
      → s.remaining ≡ rest
      → (store_back m session s).objects ≡ s.objects
  unfolding store_back
  store_back_objects s [] e = ground arith
  store_back_objects s (r ∷ rest) e = ground arith

  -- The same of a queue that is given by a name.
  record Ran (q : List ℕ) (ran : SteerManager × List ℕ) : Type 0 where
    same : IsSwept m ran.0
    queue_is :
        (j : String)
        → queue ran.0 j ≡ (if session == j then left verdict m.objects 0 q else queue m j)
    selected_is : ran.1 ≡ chosen verdict m.objects 0 q
    objects_are :
        (r : ℕ)
        → ran.0.objects r
          ≡ (if elem r (chosen verdict m.objects 0 q) then mark (m.objects r) else m.objects r)

  sweep_queue-Ran :
      (q : List ℕ) → queue m session ≡ q → Distinct q → Ran q (sweep_queue verdict mark m session q)
  unfolding sweep_queue
  sweep_queue-Ran [] e d = record {
    same = record { max_same = refl; turns_same = refl; recent_same = refl; made_same = refl };
    queue_is = λ j. ground (arith, ==_iff session j);
    selected_is = refl;
    objects_are = λ r. refl;
  }
  sweep_queue-Ran (x ∷ q) e d = record {
    same = store_back-IsSwept (sweep verdict mark m.objects (x ∷ q)) _ refl;
    queue_is =
        λ j. queue-store_back m session _ _ j (sweep_remaining verdict mark m.objects (x ∷ q) d);
    selected_is = sweep_selected verdict mark m.objects (x ∷ q) d;
    objects_are = λ r.
        rw (store_back_objects (sweep verdict mark m.objects (x ∷ q)) _ refl)
          (sweep_objects verdict mark m.objects (x ∷ q) d r);
  }

  module _ (distinct : Distinct (queue m session)) where
    ran : Ran (queue m session) (sweep_session verdict mark m session)
    unfolding sweep_session
    ran = sweep_queue-Ran (queue m session) refl distinct

    pub sweep_session-IsSwept : IsSwept m (sweep_session verdict mark m session).0
    sweep_session-IsSwept = ran.same

    pub queue-sweep_session :
        (j : String)
        → queue (sweep_session verdict mark m session).0 j
          ≡ (if session == j then left verdict m.objects 0 (queue m session) else queue m j)
    queue-sweep_session = ran.queue_is

    pub sweep_session_selected :
        (sweep_session verdict mark m session).1 ≡ chosen verdict m.objects 0 (queue m session)
    sweep_session_selected = ran.selected_is

    pub sweep_session_objects :
        (r : ℕ)
        → (sweep_session verdict mark m session).0.objects r ≡ (
            if elem r (chosen verdict m.objects 0 (queue m session))
            then mark (m.objects r)
            else m.objects r)
    sweep_session_objects = ran.objects_are
