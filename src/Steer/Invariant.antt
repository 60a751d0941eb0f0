-- ===== src/Steer/Invariant.antt =====
-- The queues of the steer manager stay within their limit and in step with the signals' statuses.
use luna_agent.Prelude.{
  ℕ, ◌≤◌, ◌<◌, ◌≡◌, inl, inr, ◌≢◌, true, false, List, arith, ℕ_eq, String, String_eq, ==_iff, elem,
  Distinct, length, Bool-cases,
}
use luna_agent.Prelude.Dict
use luna_agent.Prelude.Dict.{Dict}
use luna_agent.Steer.{
  SteerManager, SteerSignal, Verdict, forget, queue, sweep_session, is_pending, init,
}
use luna_agent.Steer.Scan.{chosen, chosen-subset, left-subset}
use luna_agent.Steer.Session.{
  length-left-le, left-Distinct, left_or_chosen, chosen_or_left, queue-sweep_session,
  sweep_session_objects, sweep_session-IsSwept,
}

-- Every queue holds distinct pending signals of its session, at most the limit of them, and every
-- pending signal stands in the queue of its session.
pub record Inv (m : SteerManager) : Type 0 where
  pub room : 1 ≤ m.max_pending_per_session
  pub bounded : (s : String) → length (queue m s) ≤ m.max_pending_per_session
  pub distinct : (s : String) → Distinct (queue m s)
  pub sound :
      (s : String) (r : ℕ)
      → elem r (queue m s) ≡ true
      → (r < m.made) × (is_pending (m.objects r).status ≡ true) × ((m.objects r).session_key ≡ s)
  pub complete :
      (r : ℕ)
      → r < m.made
      → is_pending (m.objects r).status ≡ true
      → elem r (queue m (m.objects r).session_key) ≡ true

pub init-Inv : (a b c : ℕ) → Inv (init a b c)
unfolding init queue Dict.get
init-Inv a b c = record {
  room = omega arith;
  bounded = λ s. omega arith;
  distinct = λ s. tt;
  sound = λ s r h. cc;
  complete = λ r h p. absurd (omega arith);
}

-- A sweep that forgets no pending signal, and whose mark ends a signal, keeps the invariant.
module _ (verdict : ℕ → SteerSignal → Verdict) (mark : SteerSignal → SteerSignal)
    (keeps : (k : ℕ) (x : SteerSignal) → is_pending x.status ≡ true → verdict k x ≢ forget)
    (ends : (x : SteerSignal) → is_pending (mark x).status ≡ false) (m : SteerManager)
    (session : String) (inv : Inv m) where
  abbrev q : List ℕ
  q = queue m session

  abbrev m' : SteerManager
  m' = (sweep_session verdict mark m session).0

  swept_sound :
      (s : String) (r : ℕ)
      → elem r (queue m' s) ≡ true
      → (r < m'.made) × (is_pending (m'.objects r).status ≡ true) × ((m'.objects r).session_key ≡ s)
  swept_sound s r h = ground (
    arith,
    queue-sweep_session verdict mark m session (inv.distinct session) s,
    sweep_session_objects verdict mark m session (inv.distinct session) r,
    (sweep_session-IsSwept verdict mark m session (inv.distinct session)).made_same,
    ==_iff session s,
    left-subset verdict m.objects r 0 q,
    chosen-subset verdict m.objects r 0 q,
    left_or_chosen verdict m.objects r 0 q (inv.distinct session),
    inv.sound session r,
    inv.sound s r,
  )

  swept_complete :
      (r : ℕ)
      → r < m'.made
      → is_pending (m'.objects r).status ≡ true
      → elem r (queue m' (m'.objects r).session_key) ≡ true
  swept_complete r h p = elim (Bool-cases (elem r (chosen verdict m.objects 0 q))) [
    | inl picked ↦ absurd (
        ground (
          arith,
          ends (m.objects r),
          sweep_session_objects verdict mark m session (inv.distinct session) r,
        ))
    | inr passed ↦
        let same : m'.objects r ≡ m.objects r =
          ground (arith, sweep_session_objects verdict mark m session (inv.distinct session) r) in
        let p' : is_pending (m.objects r).status ≡ true = rw same at p in
        ground (
          arith,
          same,
          queue-sweep_session verdict mark m session (inv.distinct session)
              (m.objects r).session_key,
          (sweep_session-IsSwept verdict mark m session (inv.distinct session)).made_same,
          ==_iff session (m.objects r).session_key,
          inv.complete r,
          chosen_or_left verdict m.objects r 0 q (λ j. keeps j (m.objects r) p'),
        )
  ]

  pub sweep_session-Inv : Inv (sweep_session verdict mark m session).0
  sweep_session-Inv = record {
    room =
        ground
          (arith, inv.room, sweep_session-IsSwept verdict mark m session (inv.distinct session));
    bounded = λ s. ground (
      arith,
      queue-sweep_session verdict mark m session (inv.distinct session) s,
      (sweep_session-IsSwept verdict mark m session (inv.distinct session)).max_same,
      length-left-le verdict m.objects 0 q,
      inv.bounded session,
      inv.bounded s,
    );
    distinct = λ s. ground (
      arith,
      queue-sweep_session verdict mark m session (inv.distinct session) s,
      left-Distinct verdict m.objects 0 q (inv.distinct session),
      inv.distinct s,
    );
    sound = swept_sound;
    complete = swept_complete;
  }
