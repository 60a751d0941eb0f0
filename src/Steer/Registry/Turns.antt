-- ===== src/Steer/Registry/Turns.antt =====
-- The active turns of ActiveTurnRegistry, of src/luna_agent/conversation/steer.py, and the queues of its manager.
use luna_agent.Prelude.{
  ℕ, max, ◌≡◌, refl, inl, inr, Bool, true, false, ◌||◌, Option, none, some, List, [], ◌∷◌, arith,
  ◌==◌, ℕ_eq, String, String_eq, ==_iff, ==_self, elem, elem-append, Bool-cases, is_empty,
  strip_idem,
}
use luna_agent.Prelude.Dict
use luna_agent.Prelude.Dict.{Dict, get-put, get-remove}
use luna_agent.Steer.{
  SteerManager, SteerSignal, Verdict, queue, clean_key, is_pending, drop_active, sweep_session,
  end_verdict, end_mark, consume_verdict, consume_mark, new_signal, expire, get_or,
}
use luna_agent.Steer
use luna_agent.Steer.Scan.{left-subset, chosen-subset}
use luna_agent.Steer.Evict.{kept, queue-add, add_objects, evict_subset}
use luna_agent.Steer.Session.{
  left_or_chosen, queue-sweep_session, sweep_session_objects, sweep_session-IsSwept,
}
use luna_agent.Steer.Invariant.{Inv}
use luna_agent.Steer.Kept.{turns-Inv, begin_turn-Inv, add-Inv, consume-Inv}
use luna_agent.Steer.Registry.{ActiveTurn, ActiveTurnRegistry, open_turn, consume}

abbrev pub turn_of : Option ActiveTurn → Option String
turn_of none = none
turn_of (some active) = some active.turn_id

-- The id of a session's active turn.
abbrev pub active_id : ActiveTurnRegistry → String → Option String
active_id g session = turn_of (Dict.get g.turns session)

-- The registry, its manager, and the queues are in step.
pub record IsAligned (g : ActiveTurnRegistry) : Type 0 where
  pub steer_inv : Inv g.steer
  pub same_turns : (s : String) → Dict.get g.steer.active_turns s ≡ active_id g s
  pub named : (s t : String) → active_id g s ≡ some t → (is_empty s ≡ false) × (is_empty t ≡ false)
  pub bound :
      (s : String) (r : ℕ)
      → elem r (queue g.steer s) ≡ true
      → active_id g s ≡ some (g.steer.objects r).turn_id

pub clean_key_idem : (s : String) → clean_key (clean_key s) ≡ clean_key s
unfolding clean_key
clean_key_idem s = strip_idem s

pub empty_of_no_members : (q : List ℕ) → ((r : ℕ) → elem r q ≡ false) → q ≡ []
empty_of_no_members [] h = refl
empty_of_no_members (x ∷ q) h = cc (h x, ==_self x)

-- Whether the session's active turn is this one.
abbrev pub ends_it : Option ActiveTurn → String → Bool
ends_it none turn = false
ends_it (some active) turn = active.turn_id == turn

module _ (g : ActiveTurnRegistry) (a : IsAligned g) where
  -- Without an active turn nothing is queued.
  pub idle_queue : (s : String) → Dict.get g.turns s ≡ none → queue g.steer s ≡ []
  idle_queue s e = empty_of_no_members (queue g.steer s) λ r. ground (arith, a.bound s r)

  module _ (session turn request_id : String) (task : Option ℕ) (now : ℕ)
      (hs : is_empty (clean_key session) ≡ false) (ht : is_empty (clean_key turn) ≡ false)
      (idle : Dict.get g.turns (clean_key session) ≡ none) where
    abbrev pub g' : ActiveTurnRegistry
    g' = (open_turn g (clean_key session) (clean_key turn) request_id task now).0

    opened_steer : Steer.begin_turn g.steer (clean_key session) (clean_key turn) ≡ record g.steer {
      active_turns = Dict.put g.steer.active_turns (clean_key session) (clean_key turn);
    }
    unfolding Steer.begin_turn
    opened_steer =
        rw
          (clean_key_idem session, clean_key_idem turn, hs, ht, idle_queue (clean_key session) idle)
          refl

    pub opened-IsAligned : IsAligned g'
    unfolding open_turn queue
    opened-IsAligned = record {
      steer_inv = begin_turn-Inv g.steer (clean_key session) (clean_key turn) a.steer_inv;
      same_turns = λ s. ground (
        arith,
        opened_steer,
        get-put g.steer.active_turns (clean_key session) (clean_key turn) s,
        get-put g.turns (clean_key session) g'_turn s,
        a.same_turns s,
      );
      named = λ s t e. ground (
        arith,
        get-put g.turns (clean_key session) g'_turn s,
        ==_iff (clean_key session) s,
        a.named s t,
      );
      bound = λ s r h. ground (
        arith,
        opened_steer,
        get-put g.turns (clean_key session) g'_turn s,
        ==_iff (clean_key session) s,
        a.bound s r,
      );
    }
      where
        g'_turn : ActiveTurn
        g'_turn = (open_turn g (clean_key session) (clean_key turn) request_id task now).1

  module _ (session : String) (source : ℕ) (text id : String) (now : ℕ) (t : ActiveTurn)
      (live : Dict.get g.turns (clean_key session) ≡ some t) where
    abbrev pub added : SteerManager
    added = (Steer.add g.steer (clean_key session) source text id now).0

    added_turns : added.active_turns ≡ g.steer.active_turns
    unfolding Steer.add
    added_turns = refl

    pub added-IsAligned : IsAligned (record g { steer = added })
    unfolding new_signal expire
    added-IsAligned = record {
      steer_inv = add-Inv g.steer (clean_key session) source text id now a.steer_inv;
      same_turns = λ s. rw added_turns (a.same_turns s);
      named = a.named;
      bound = λ s r h. ground (
        arith,
        clean_key_idem session,
        ==_iff (clean_key session) s,
        ==_iff g.steer.made r,
        queue-add g.steer (clean_key session) source text id now s,
        add_objects g.steer (clean_key session) source text id now
            (a.steer_inv.distinct (clean_key (clean_key session))) r,
        elem-append r (kept g.steer (clean_key session) source text id now) (g.steer.made ∷ []),
        evict_subset g.steer.max_pending_per_session (queue g.steer (clean_key (clean_key session)))
            g.steer.objects r,
        a.bound s r,
        a.steer_inv.sound s r,
        a.steer_inv.sound (clean_key session) r,
        a.same_turns (clean_key session),
      );
    }

  -- A sweep of a session leaves a part of its queue, and those signals as they were.
  module _ (verdict : ℕ → SteerSignal → Verdict) (mark : SteerSignal → SteerSignal)
      (turns : Dict String String) (session : String) where
    abbrev pub before : SteerManager
    before = record g.steer { active_turns = turns }

    abbrev pub swept : SteerManager
    swept = (sweep_session verdict mark before session).0

    pub swept_bound :
        (s : String) (r : ℕ)
        → elem r (queue swept s) ≡ true
        → active_id g s ≡ some (swept.objects r).turn_id
    unfolding queue
    swept_bound s r h =
        let inv = turns-Inv g.steer turns a.steer_inv in
        ground (
          arith,
          queue-sweep_session verdict mark before session (inv.distinct session) s,
          sweep_session_objects verdict mark before session (inv.distinct session) r,
          ==_iff session s,
          left-subset verdict before.objects r 0 (queue before session),
          left_or_chosen verdict before.objects r 0 (queue before session) (inv.distinct session),
          chosen-subset verdict before.objects r 0 (queue before session),
          inv.sound s r,
          inv.sound session r,
          a.bound s r,
        )

  pub consume-IsAligned :
      (session turn : String) (limit now : ℕ) → IsAligned (consume g session turn limit now).0
  unfolding consume Steer.consume
  consume-IsAligned session turn limit now =
      elim (Bool-cases (is_empty (clean_key session) || is_empty (clean_key turn))) [
        | inl bad ↦ rw (bad, consume, Steer.consume) a
        | inr good ↦
            rw (good, consume, Steer.consume)
              (record {
                steer_inv =
                    rw (good, Steer.consume) at
                      (consume-Inv g.steer session turn limit now a.steer_inv);
                same_turns = λ s. ground (
                  arith,
                  a.same_turns s,
                  (sweep_session-IsSwept (consume_verdict (clean_key turn) (max 1 limit))
                      (consume_mark now) g.steer (clean_key session)
                      (a.steer_inv.distinct (clean_key session))).turns_same,
                );
                named = a.named;
                bound =
                    swept_bound (consume_verdict (clean_key turn) (max 1 limit)) (consume_mark now)
                      g.steer.active_turns (clean_key session);
              })
      ]
