-- ===== src/Steer/Consume.antt =====
-- What `consume` and `end_turn` promise: the order, the limit, and that a turn leaves nothing behind.
use luna_agent.Prelude.{
  ℕ, suc, ◌-◌, max, ◌<◌, ◌≡◌, ◌≢◌, ◌⊎◌, inl, inr, true, false, List, [], ◌∷◌, arith, ◌==◌, ℕ_eq,
  String, String_eq, ==_iff, elem, Distinct, if◌then◌else◌, Bool-cases, is_empty, take, keep, ltb,
  ◌∙◌, sym, take-nil,
}
use luna_agent.Steer.{
  SteerManager, SteerSignal, SteerStatus, Objects, Verdict, forget, queue, sweep_session,
  is_pending, consume, end_turn, consume_verdict, consume_mark, end_verdict, end_mark, clean_key,
  drop_active,
}
use luna_agent.Steer.Scan.{chosen, left}
use luna_agent.Steer.Session.{
  queue-sweep_session, sweep_session-IsSwept, sweep_session_selected, sweep_session_objects,
  left_or_chosen, chosen_or_left,
}
use luna_agent.Steer.Invariant.{Inv}
use luna_agent.Steer.Kept.{turns-Inv, end_turn-Inv}

-- The members of a queue that are for one turn, in order.
abbrev pub of_turn : Objects → String → List ℕ → List ℕ
of_turn o turn q = keep (λ r. (o r).turn_id == turn) q

abbrev AllPending : Objects → List ℕ → Type 0
AllPending o q = (r : ℕ) → elem r q ≡ true → is_pending (o r).status ≡ true

chosen-take :
    (turn : String) (limit : ℕ) (o : Objects) (k : ℕ) (q : List ℕ)
    → AllPending o q
    → chosen (consume_verdict turn limit) o k q ≡ take (limit - k) (of_turn o turn q)
unfolding consume_verdict
chosen-take turn limit o k [] p = sym (take-nil (limit - k))
chosen-take turn limit o k (x ∷ q) p = elim (Bool-cases (ltb k limit)) [
  | inl room ↦
      let more : limit - k ≡ suc (limit - suc k) = ground arith in
      rw more (
        ground (
          arith,
          p x,
          ==_iff x x,
          chosen-take turn limit o (suc k) q (λ r h. p r (ground arith)),
          chosen-take turn limit o k q (λ r h. p r (ground arith)),
        ))
  | inr full ↦
      let none_left : limit - k ≡ 0 = ground arith in
      rw none_left
        (ground (arith, p x, ==_iff x x, chosen-take turn limit o k q (λ r h. p r (ground arith))))
]

consume_verdict_keeps :
    (turn : String) (limit j : ℕ) (x : SteerSignal)
    → is_pending x.status ≡ true
    → consume_verdict turn limit j x ≢ forget
unfolding consume_verdict
consume_verdict_keeps turn limit j x p = ground arith

-- What a caller of `consume` gets: the first signals of the turn, at most the limit of them, oldest
-- first, each now consumed; and the queue keeps the others, unchanged.
pub record Consumed (m m' : SteerManager) (got : List ℕ) (session turn : String) (limit now : ℕ)
    : Type 0 where
  pub got_is : got ≡ take (max 1 limit) (of_turn m.objects turn (queue m session))
  pub got_marked :
      (r : ℕ)
      → m'.objects r ≡ (
          if elem r got
          then record (m.objects r) { status = SteerStatus.consumed; consumed_at = now }
          else m.objects r)
  pub kept_back :
      (r : ℕ)
      → elem r (queue m session) ≡ true
      → (elem r got ≡ true) ⊎ (elem r (queue m' session) ≡ true)
  pub none_twice : (r : ℕ) → elem r got ≡ true → elem r (queue m' session) ≡ false
  pub others : (s : String) → s ≢ session → queue m' s ≡ queue m s

-- In a manager with the invariant, consume with a session and a turn that are not blank hands out
-- the first signals of the turn in the queue, as many as the limit, but at least one, allows;
-- exactly these are now consumed, at the time given, all the others stay queued, and no other queue
-- changes.
pub consume-Consumed :
    (m : SteerManager) (session turn : String) (limit now : ℕ)
    → Inv m
    → is_empty (clean_key session) ≡ false
    → is_empty (clean_key turn) ≡ false
    → let (m', got) = consume m session turn limit now in
      Consumed m m' got (clean_key session) (clean_key turn) limit now
unfolding consume consume_mark
consume-Consumed m session turn limit now inv hs ht =
    rw (hs, ht, consume)
      (record {
        got_is = picked ∙ taken;
        got_marked = λ r. rw picked (sweep_session_objects verdict (consume_mark now) m s d r);
        kept_back = λ r h. ground (
          arith,
          picked,
          ==_iff s s,
          queue-sweep_session verdict (consume_mark now) m s d s,
          chosen_or_left verdict m.objects r 0 (queue m s)
              (λ j. kept_pending j (m.objects r) (inv.sound s r h).1),
        );
        none_twice = λ r h. ground (
          arith,
          picked,
          ==_iff s s,
          queue-sweep_session verdict (consume_mark now) m s d s,
          left_or_chosen verdict m.objects r 0 (queue m s) d,
        );
        others = λ j h.
            ground (arith, ==_iff s j, queue-sweep_session verdict (consume_mark now) m s d j);
      })
  where
    s : String
    s = clean_key session

    verdict : ℕ → SteerSignal → Verdict
    verdict = consume_verdict (clean_key turn) (max 1 limit)

    d : Distinct (queue m s)
    d = inv.distinct s

    picked :
        (sweep_session verdict (consume_mark now) m s).1 ≡ chosen verdict m.objects 0 (queue m s)
    picked = sweep_session_selected verdict (consume_mark now) m s d

    taken :
        chosen verdict m.objects 0 (queue m s)
        ≡ take (max 1 limit) (of_turn m.objects (clean_key turn) (queue m s))
    taken =
        let e : max 1 limit - 0 ≡ max 1 limit = omega arith in
        rw e at (
          chosen-take (clean_key turn) (max 1 limit) m.objects 0 (queue m s)
            (λ r h. (inv.sound s r h).1))

    kept_pending : (j : ℕ) (x : SteerSignal) → is_pending x.status ≡ true → verdict j x ≢ forget
    kept_pending = consume_verdict_keeps (clean_key turn) (max 1 limit)

pub end_left :
    (turn : String) (o : Objects) (r k : ℕ) (q : List ℕ)
    → is_pending (o r).status ≡ true
    → elem r (left (end_verdict turn) o k q) ≡ true
    → (is_empty (o r).turn_id ≡ false) × ((o r).turn_id ≢ turn)
unfolding end_verdict
end_left turn o r k [] p h = cc
end_left turn o r k (x ∷ q) p h = ground (
  arith,
  ==_iff x r,
  ==_iff (o r).turn_id turn,
  end_left turn o r k q p,
  end_left turn o r (suc k) q p,
)

module _ (m : SteerManager) (s turn : String) (r : ℕ) (inv : Inv m) (made : r < m.made) where
  abbrev ended : SteerManager
  ended = (sweep_session (end_verdict turn) end_mark m s).0

  -- A signal of the session that is pending after the sweep was left in the queue.
  left_behind :
      (ended.objects r).session_key ≡ s
      → is_pending (ended.objects r).status ≡ true
      → (ended.objects r ≡ m.objects r)
        × (elem r (left (end_verdict turn) m.objects 0 (queue m s)) ≡ true)
  unfolding end_verdict end_mark
  left_behind key p = ground (
    arith,
    sweep_session_objects (end_verdict turn) end_mark m s (inv.distinct s) r,
    inv.complete r made,
    chosen_or_left (end_verdict turn) m.objects r 0 (queue m s) (λ j. ground arith),
  )

  swept_clears :
      (ended.objects r).session_key ≡ s
      → is_pending (ended.objects r).status ≡ true
      → (is_empty (ended.objects r).turn_id ≡ false) × ((ended.objects r).turn_id ≢ turn)
  swept_clears key p =
      let (same, stays) = left_behind key p in
      rw same (end_left turn m.objects r 0 (queue m s) (rw same at p) stays)

-- A signal of the session that is still pending is bound to another turn.
end_turn_pending :
    (m : SteerManager) (session turn : String) (r : ℕ)
    → Inv m
    → is_empty (clean_key session) ≡ false
    → is_empty (clean_key turn) ≡ false
    → r < m.made
    → let m' = (end_turn m session turn).0 in
      (m'.objects r).session_key ≡ clean_key session
      → is_pending (m'.objects r).status ≡ true
      → (is_empty (m'.objects r).turn_id ≡ false) × ((m'.objects r).turn_id ≢ clean_key turn)
unfolding end_turn
end_turn_pending m session turn r inv hs ht made =
    rw (hs, ht, end_turn)
      (swept_clears
        (record m {
          active_turns = drop_active m.active_turns (clean_key session) (clean_key turn);
        })
        (clean_key session) (clean_key turn) r (turns-Inv m _ inv) made)

end_turn_made :
    (m : SteerManager) (session turn : String)
    → Inv m
    → is_empty (clean_key session) ≡ false
    → is_empty (clean_key turn) ≡ false
    → (end_turn m session turn).0.made ≡ m.made
unfolding end_turn
end_turn_made m session turn inv hs ht =
    let turns = drop_active m.active_turns (clean_key session) (clean_key turn) in
    rw (hs, ht, end_turn)
      ((sweep_session-IsSwept (end_verdict (clean_key turn)) end_mark
        (record m { active_turns = turns }) (clean_key session)
        ((turns-Inv m turns inv).distinct (clean_key session))).made_same)

-- In a manager with the invariant, after end_turn with a session and a turn that are not blank,
-- every signal in the queue of the session is pending and bound to a turn, and not to that one.
pub end_turn_clears :
    (m : SteerManager) (session turn : String) (r : ℕ)
    → Inv m
    → is_empty (clean_key session) ≡ false
    → is_empty (clean_key turn) ≡ false
    → let m' = (end_turn m session turn).0 in
      elem r (queue m' (clean_key session)) ≡ true
      → (is_pending (m'.objects r).status ≡ true)
        × (is_empty (m'.objects r).turn_id ≡ false)
        × ((m'.objects r).turn_id ≢ clean_key turn)
end_turn_clears m session turn r inv hs ht queued =
    let (made, pending, key) =
      (end_turn-Inv m session turn inv).sound (clean_key session) r queued in
    let old : r < m.made = ground (arith, end_turn_made m session turn inv hs ht, made) in
    let (bound, other) = end_turn_pending m session turn r inv hs ht old key pending in
    (pending, bound, other)
