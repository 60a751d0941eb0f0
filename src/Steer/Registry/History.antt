-- ===== src/Steer/Registry/History.antt =====
-- Any history of calls of the registry; a call that raises leaves it as it was.
use luna_agent.Prelude.{
  ℕ, ◌≡◌, refl, inl, inr, Bool, true, false, not, ◌||◌, ◌&&◌, ◌==◌, Option, none, some, List, [],
  ◌∷◌, arith, All, String, String_eq, ==_iff, ℕ_eq, Bool-cases, Option-cases, is_empty,
}
use luna_agent.Prelude.Dict
use luna_agent.Prelude.Dict.{get-put, get-remove}
use luna_agent.Steer.{SteerManager, queue, clean_key}
use luna_agent.Steer
use luna_agent.Steer.Invariant.{init-Inv}
use luna_agent.Steer.Registry.{
  ActiveTurn, ActiveTurnRegistry, Outcome, ok, raised, already_active, new, open_turn, close_turn,
  begin_turn, end_turn, add, consume,
}
use luna_agent.Steer.Registry.Turns.{
  IsAligned, ends_it, opened-IsAligned, added-IsAligned, consume-IsAligned, clean_key_idem,
  empty_of_no_members,
}
use luna_agent.Steer.Registry.Ending.{final-IsAligned, ended_empty, close_turn_turns, final_steer}

pub data Call : Type 0 where
  begins : (session turn request_id : String) (task : Option ℕ) (now : ℕ) → Call
  ends : (session turn : String) → Call
  adds : (session : String) (source : ℕ) (text id : String) (now : ℕ) → Call
  consumes : (session turn : String) (limit now : ℕ) → Call

abbrev pub after {ℓ} :
    {A : Type ℓ} → ActiveTurnRegistry → Outcome (ActiveTurnRegistry × A) → ActiveTurnRegistry
after g (ok (g', _)) = g'
after g (raised _) = g

unfoldable pub step : ActiveTurnRegistry → Call → ActiveTurnRegistry
step g (begins session turn request_id task now) =
    after g (begin_turn g session turn request_id task now)
step g (ends session turn) = (end_turn g session turn).0
step g (adds session source text id now) = after g (add g session source text id now)
step g (consumes session turn limit now) = (consume g session turn limit now).0

unfoldable pub run : ActiveTurnRegistry → List Call → ActiveTurnRegistry
run g [] = g
run g (c ∷ cs) = run (step g c) cs

new-IsAligned : (m t r : ℕ) → IsAligned (new (Steer.init m t r))
unfolding new Steer.init Dict.get queue
new-IsAligned m t r = record {
  steer_inv = init-Inv m t r;
  same_turns = λ s. refl;
  named = λ s t e. cc;
  bound = λ s r h. cc;
}

begin_turn-IsAligned :
    (g : ActiveTurnRegistry) (session turn request_id : String) (task : Option ℕ) (now : ℕ)
    → IsAligned g
    → IsAligned (after g (begin_turn g session turn request_id task now))
unfolding begin_turn
begin_turn-IsAligned g session turn request_id task now a =
    elim (Bool-cases (is_empty (clean_key session) || is_empty (clean_key turn))) [
      | inl bad ↦ rw (bad, begin_turn) a
      | inr good ↦ elim (Option-cases (Dict.get g.turns (clean_key session))) [
        | inl idle ↦
            rw (good, idle, begin_turn)
              (opened-IsAligned g a session turn request_id task now (ground arith) (ground arith)
                idle)
        | inr (t, busy) ↦ rw (good, busy, begin_turn) a
      ]
    ]

add-IsAligned :
    (g : ActiveTurnRegistry) (session : String) (source : ℕ) (text id : String) (now : ℕ)
    → IsAligned g
    → IsAligned (after g (add g session source text id now))
unfolding add
add-IsAligned g session source text id now a =
    elim (Option-cases (Dict.get g.turns (clean_key session))) [
      | inl idle ↦ rw (idle, add) a
      | inr (t, live) ↦ rw (live, add) (added-IsAligned g a session source text id now t live)
    ]

end_turn-IsAligned :
    (g : ActiveTurnRegistry) (session turn : String)
    → IsAligned g
    → IsAligned (end_turn g session turn).0
unfolding end_turn
end_turn-IsAligned g session turn a =
    final-IsAligned g a (clean_key session) (clean_key turn) (clean_key_idem session)
      (clean_key_idem turn)

pub step-IsAligned : (g : ActiveTurnRegistry) (c : Call) → IsAligned g → IsAligned (step g c)
unfolding step
step-IsAligned g (begins session turn request_id task now) a =
    begin_turn-IsAligned g session turn request_id task now a
step-IsAligned g (ends session turn) a = end_turn-IsAligned g session turn a
step-IsAligned g (adds session source text id now) a = add-IsAligned g session source text id now a
step-IsAligned g (consumes session turn limit now) a = consume-IsAligned g a session turn limit now

run-IsAligned : (g : ActiveTurnRegistry) (cs : List Call) → IsAligned g → IsAligned (run g cs)
unfolding run
run-IsAligned g [] a = a
run-IsAligned g (c ∷ cs) a = run-IsAligned (step g c) cs (step-IsAligned g c a)

-- After any calls on a new registry, it and its manager name the same turns, these and their
-- sessions are not blank, every queued steer is bound to the active turn of its session, and the
-- manager has its invariant.
pub run-new-IsAligned : (m t r : ℕ) (cs : List Call) → IsAligned (run (new (Steer.init m t r)) cs)
run-new-IsAligned m t r cs = run-IsAligned _ cs (new-IsAligned m t r)

-- In an aligned registry, ending the active turn of a session leaves it with no turn and an empty
-- queue.
pub end_turn_empties :
    (g : ActiveTurnRegistry) (session turn : String) (active : ActiveTurn)
    → IsAligned g
    → Dict.get g.turns (clean_key session) ≡ some active
    → active.turn_id ≡ clean_key turn
    → (Dict.get (end_turn g session turn).0.turns (clean_key session) ≡ none)
      × (queue (end_turn g session turn).0.steer (clean_key session) ≡ [])
unfolding end_turn
end_turn_empties g session turn active a e same =
    let s = clean_key session in
    let t = clean_key turn in
    let matches : ends_it (Dict.get g.turns s) t ≡ true = ground (arith, ==_iff active.turn_id t) in
    let good : (is_empty s || is_empty t) ≡ false = ground (arith, a.named s t) in
    let steer = final_steer g a s t (clean_key_idem session) (clean_key_idem turn) good in
    (
      ground (arith, close_turn_turns g a s t s, ==_iff s s),
      rw steer (empty_of_no_members _ (λ r. ended_empty g a s t r matches)),
    )

-- The session has the turn.
Has : ActiveTurnRegistry → (session turn : String) → Type 0
Has g session turn =
    (active : ActiveTurn) × (Dict.get g.turns session ≡ some active) × (active.turn_id ≡ turn)

-- A call that does not end the turn of the session.
abbrev pub spares : (session turn : String) → Call → Bool
spares session turn (ends s t) = not (clean_key s == session && clean_key t == turn)
spares session turn _ = true

begin_turn-Has :
    (g : ActiveTurnRegistry) (s t session turn request_id : String) (task : Option ℕ) (now : ℕ)
    → Has g s t
    → Has (after g (begin_turn g session turn request_id task now)) s t
unfolding Has begin_turn open_turn
begin_turn-Has g s t session turn request_id task now (active, e, same) =
    elim (Bool-cases (is_empty (clean_key session) || is_empty (clean_key turn))) [
      | inl bad ↦ rw (bad, begin_turn) (active, e, same)
      | inr good ↦ elim (Option-cases (Dict.get g.turns (clean_key session))) [
        | inl idle ↦
            let opened : ActiveTurn = record {
              session_key = clean_key session;
              turn_id = clean_key turn;
              request_id = clean_key request_id;
              started_at = now;
            } in
            rw (good, idle, begin_turn)
              (
                active,
                (ground (
                  arith,
                  e,
                  idle,
                  get-put g.turns (clean_key session) opened s,
                  ==_iff (clean_key session) s,
                )),
                same,
              )
        | inr (x, busy) ↦ rw (good, busy, begin_turn) (active, e, same)
      ]
    ]

end_turn-Has :
    (g : ActiveTurnRegistry) (s t session turn : String)
    → Has g s t
    → not (clean_key session == s && clean_key turn == t) ≡ true
    → Has (end_turn g session turn).0 s t
unfolding Has end_turn close_turn
end_turn-Has g s t session turn (active, e, same) other = (
  active,
  ground (
    arith,
    e,
    same,
    other,
    get-remove g.turns (clean_key session) s,
    ==_iff (clean_key session) s,
    ==_iff active.turn_id (clean_key turn),
    ==_iff (clean_key turn) t,
  ),
  same,
)

add-Has :
    (g : ActiveTurnRegistry) (s t session : String) (source : ℕ) (text id : String) (now : ℕ)
    → Has g s t
    → Has (after g (add g session source text id now)) s t
unfolding Has add
add-Has g s t session source text id now has =
    elim (Option-cases (Dict.get g.turns (clean_key session))) [
      | inl idle ↦ rw (idle, add) has
      | inr (x, live) ↦ rw (live, add) has
    ]

step-Has :
    (g : ActiveTurnRegistry) (s t : String) (c : Call)
    → Has g s t
    → spares s t c ≡ true
    → Has (step g c) s t
unfolding step Has consume
step-Has g s t (begins session turn request_id task now) has h =
    begin_turn-Has g s t session turn request_id task now has
step-Has g s t (ends session turn) has h = end_turn-Has g s t session turn has h
step-Has g s t (adds session source text id now) has h =
    add-Has g s t session source text id now has
step-Has g s t (consumes session turn limit now) has h = has

run-Has :
    (g : ActiveTurnRegistry) (s t : String) (cs : List Call)
    → Has g s t
    → All (λ c. spares s t c ≡ true) cs
    → Has (run g cs) s t
unfolding run
run-Has g s t [] has h = has
run-Has g s t (c ∷ cs) has (h, hs) = run-Has (step g c) s t cs (step-Has g s t c has h) hs

begun-Has :
    (g : ActiveTurnRegistry) (session turn request_id : String) (task : Option ℕ) (now : ℕ)
    (g' : ActiveTurnRegistry) (active : ActiveTurn)
    → begin_turn g session turn request_id task now ≡ ok (g', active)
    → Has g' (clean_key session) (clean_key turn)
unfolding Has begin_turn open_turn
begun-Has g session turn request_id task now g' active e = (
  active,
  ground (
    arith,
    e,
    get-put g.turns (clean_key session) active (clean_key session),
    ==_iff (clean_key session) (clean_key session),
  ),
  ground (arith, e),
)

refused :
    (g : ActiveTurnRegistry) (s t session turn request_id : String) (task : Option ℕ) (now : ℕ)
    → Has g s t
    → clean_key session ≡ s
    → is_empty s ≡ false
    → is_empty (clean_key turn) ≡ false
    → begin_turn g session turn request_id task now ≡ raised already_active
unfolding Has begin_turn
refused g s t session turn request_id task now (active, e, same) key hs h =
    ground (arith, e, key, hs, h)

-- After a turn of a session began and any calls followed of which none ends that turn of that
-- session, beginning a turn that is not blank in that session raises.
pub one_turn_at_a_time :
    (g : ActiveTurnRegistry) (session turn turn' request_id request_id' : String)
    (task task' : Option ℕ) (now now' : ℕ) (g' : ActiveTurnRegistry) (active : ActiveTurn)
    (cs : List Call)
    → begin_turn g session turn request_id task now ≡ ok (g', active)
    → All (λ c. spares (clean_key session) (clean_key turn) c ≡ true) cs
    → is_empty (clean_key turn') ≡ false
    → begin_turn (run g' cs) session turn' request_id' task' now' ≡ raised already_active
unfolding begin_turn
one_turn_at_a_time g session turn turn' request_id request_id' task task' now now' g' active cs e h
      h' =
    refused (run g' cs) (clean_key session) (clean_key turn) session turn' request_id' task' now'
      (run-Has g' (clean_key session) (clean_key turn) cs
        (begun-Has g session turn request_id task now g' active e) h)
      refl (ground (arith, e)) h'
