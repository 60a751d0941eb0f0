-- ===== src/Steer/Trace.antt =====
-- Any history of calls of the steer manager.
use luna_agent.Prelude.{
  ℕ, max, ◌≡◌, refl, false, List, [], ◌∷◌, arith, ℕ_eq, String, ◌<◌, ◌≤◌, suc, ◌∙◌, ==_iff, fold,
}
use luna_agent.Steer.{
  SteerManager, SteerSignal, queue, sweep_session, is_pending, expire, bind_turn, begin_turn, add,
  consume, end_turn, consume_verdict, consume_mark, end_verdict, end_mark, clean_key, drop_active,
  init, Objects, Verdict,
}
use luna_agent.Steer.Scan.{chosen-subset}
use luna_agent.Steer.Evict.{add_objects}
use luna_agent.Steer.Session.{sweep_session_objects, sweep_session-IsSwept}
use luna_agent.Steer.Invariant.{Inv, init-Inv}
use luna_agent.Steer.Kept.{begin_turn-Inv, add-Inv, consume-Inv, end_turn-Inv, turns-Inv}

pub data Call : Type 0 where
  begins : (session turn : String) → Call
  adds : (session : String) (source : ℕ) (text id : String) (now : ℕ) → Call
  consumes : (session turn : String) (limit now : ℕ) → Call
  ends : (session turn : String) → Call

unfoldable pub step : SteerManager → Call → SteerManager
step m (begins session turn) = begin_turn m session turn
step m (adds session source text id now) = (add m session source text id now).0
step m (consumes session turn limit now) = (consume m session turn limit now).0
step m (ends session turn) = (end_turn m session turn).0

unfoldable pub run : SteerManager → List Call → SteerManager
run m [] = m
run m (c ∷ cs) = run (step m c) cs

pub step-Inv : (m : SteerManager) (c : Call) → Inv m → Inv (step m c)
unfolding step
step-Inv m (begins session turn) inv = begin_turn-Inv m session turn inv
step-Inv m (adds session source text id now) inv = add-Inv m session source text id now inv
step-Inv m (consumes session turn limit now) inv = consume-Inv m session turn limit now inv
step-Inv m (ends session turn) inv = end_turn-Inv m session turn inv

pub run-Inv : (m : SteerManager) (cs : List Call) → Inv m → Inv (run m cs)
unfolding run
run-Inv m [] inv = inv
run-Inv m (c ∷ cs) inv = run-Inv (step m c) cs (step-Inv m c inv)

-- After any calls on a new manager, each queue is within its limit and has no signal twice, the
-- queued signals are pending and of the queue's session, and each pending signal is queued.
pub run-init-Inv :
    (max_pending max_text recents : ℕ) (cs : List Call)
    → Inv (run (init max_pending max_text recents) cs)
run-init-Inv max_pending max_text recents cs = run-Inv _ cs (init-Inv max_pending max_text recents)

-- A sweep changes no signal that is settled.
sweep_settled :
    (verdict : ℕ → SteerSignal → Verdict) (mark : SteerSignal → SteerSignal) (m : SteerManager)
    (session : String) (r : ℕ)
    → Inv m
    → is_pending (m.objects r).status ≡ false
    → (sweep_session verdict mark m session).0.objects r ≡ m.objects r
sweep_settled verdict mark m session r inv done = ground (
  arith,
  sweep_session_objects verdict mark m session (inv.distinct session) r,
  chosen-subset verdict m.objects r 0 (queue m session),
  inv.sound session r,
)

bind_settled :
    (turn : String) (q : List ℕ) (o : Objects) (r : ℕ)
    → is_pending (o r).status ≡ false
    → fold (bind_turn turn) o q r ≡ o r
unfolding bind_turn
bind_settled turn [] o r h = refl
bind_settled turn (x ∷ q) o r h =
    ground (arith, ==_iff x r, bind_settled turn q (bind_turn turn o x) r)

begin_settled :
    (m : SteerManager) (session turn : String) (r : ℕ)
    → is_pending (m.objects r).status ≡ false
    → ((begin_turn m session turn).objects r ≡ m.objects r)
      × ((begin_turn m session turn).made ≡ m.made)
unfolding begin_turn
begin_settled m session turn r done =
    ground (arith, bind_settled (clean_key turn) (queue m (clean_key session)) m.objects r done)

add_settled :
    (m : SteerManager) (session : String) (source : ℕ) (text id : String) (now r : ℕ)
    → Inv m
    → r < m.made
    → is_pending (m.objects r).status ≡ false
    → ((add m session source text id now).0.objects r ≡ m.objects r)
      × ((add m session source text id now).0.made ≡ suc m.made)
unfolding add expire
add_settled m session source text id now r inv h done = ground (
  arith,
  add_objects m session source text id now (inv.distinct (clean_key session)) r,
  ==_iff m.made r,
)

consume_settled :
    (m : SteerManager) (session turn : String) (limit now r : ℕ)
    → Inv m
    → is_pending (m.objects r).status ≡ false
    → ((consume m session turn limit now).0.objects r ≡ m.objects r)
      × ((consume m session turn limit now).0.made ≡ m.made)
unfolding consume
consume_settled m session turn limit now r inv done =
    let verdict = consume_verdict (clean_key turn) (max 1 limit) in
    let s = clean_key session in
    ground (
      arith,
      sweep_settled verdict (consume_mark now) m s r inv done,
      (sweep_session-IsSwept verdict (consume_mark now) m s (inv.distinct s)).made_same,
    )

end_settled :
    (m : SteerManager) (session turn : String) (r : ℕ)
    → Inv m
    → is_pending (m.objects r).status ≡ false
    → ((end_turn m session turn).0.objects r ≡ m.objects r)
      × ((end_turn m session turn).0.made ≡ m.made)
unfolding end_turn
end_settled m session turn r inv done =
    let verdict = end_verdict (clean_key turn) in
    let s = clean_key session in
    let m' = record m { active_turns = drop_active m.active_turns s (clean_key turn) } in
    let inv' = turns-Inv m m'.active_turns inv in
    ground (
      arith,
      sweep_settled verdict end_mark m' s r inv' done,
      (sweep_session-IsSwept verdict end_mark m' s (inv'.distinct s)).made_same,
    )

step_settled :
    (m : SteerManager) (c : Call) (r : ℕ)
    → Inv m
    → r < m.made
    → is_pending (m.objects r).status ≡ false
    → ((step m c).objects r ≡ m.objects r) × (m.made ≤ (step m c).made)
unfolding step
step_settled m (begins session turn) r inv h done =
    ground (arith, begin_settled m session turn r done)
step_settled m (adds session source text id now) r inv h done =
    ground (arith, add_settled m session source text id now r inv h done)
step_settled m (consumes session turn limit now) r inv h done =
    ground (arith, consume_settled m session turn limit now r inv done)
step_settled m (ends session turn) r inv h done =
    ground (arith, end_settled m session turn r inv done)

-- In a manager with the invariant, a signal that is no longer pending is the same after any calls.
pub run_settled :
    (m : SteerManager) (cs : List Call) (r : ℕ)
    → Inv m
    → r < m.made
    → is_pending (m.objects r).status ≡ false
    → (run m cs).objects r ≡ m.objects r
unfolding run
run_settled m [] r inv h done = refl
run_settled m (c ∷ cs) r inv h done =
    let (same, more) = step_settled m c r inv h done in
    run_settled (step m c) cs r (step-Inv m c inv) (omega arith) (rw same done) ∙ same
