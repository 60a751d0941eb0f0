-- ===== src/Steer/Registry/Ending.antt =====
-- A turn that ends, of src/luna_agent/conversation/steer.py, and the queue of its session.
use luna_agent.Prelude.{
  ℕ, ◌≡◌, inl, inr, true, false, ◌||◌, ◌&&◌, none, arith, ◌==◌, ℕ_eq, String, String_eq, ==_iff,
  elem, if◌then◌else◌, Bool-cases, Option-cases, is_empty,
}
use luna_agent.Prelude.Dict
use luna_agent.Prelude.Dict.{Dict, get-put, get-remove}
use luna_agent.Steer.{
  SteerManager, SteerSignal, Verdict, queue, clean_key, is_pending, drop_active, sweep_session,
  end_verdict, end_mark, consume_verdict, consume_mark, new_signal, expire, get_or,
}
use luna_agent.Steer
use luna_agent.Steer.Scan.{left-subset}
use luna_agent.Steer.Session.{queue-sweep_session, sweep_session-IsSwept}
use luna_agent.Steer.Invariant.{Inv}
use luna_agent.Steer.Kept.{turns-Inv, end_turn-Inv}
use luna_agent.Steer.Consume.{end_left}
use luna_agent.Steer.Registry.{ActiveTurnRegistry, close_turn}
use luna_agent.Steer.Registry.Turns.{IsAligned, ends_it, swept, before, swept_bound}

module _ (g : ActiveTurnRegistry) (a : IsAligned g) where
  pub close_turn_turns :
      (session turn j : String)
      → Dict.get (close_turn g session turn).turns j ≡ (
          if session == j && ends_it (Dict.get g.turns session) turn
          then none
          else Dict.get g.turns j)
  unfolding close_turn
  close_turn_turns session turn j = ground (arith, get-remove g.turns session j, ==_iff session j)

  drop_active_turns :
      (session turn j : String)
      → Dict.get (drop_active g.steer.active_turns session turn) j ≡ (
          if session == j && ends_it (Dict.get g.turns session) turn
          then none
          else Dict.get g.steer.active_turns j)
  unfolding drop_active
  drop_active_turns session turn j =
      ground
        (arith, get-remove g.steer.active_turns session j, ==_iff session j, a.same_turns session)

  close_turn_steer : (session turn : String) → (close_turn g session turn).steer ≡ g.steer
  unfolding close_turn
  close_turn_steer session turn = ground arith

  module _ (s t : String) where
    abbrev pub closed : ActiveTurnRegistry
    closed = close_turn g s t

    abbrev pub ended : SteerManager
    ended = swept g a (end_verdict t) end_mark (drop_active g.steer.active_turns s t) s

    -- Nothing stays in the queue of a session whose turn ends.
    pub ended_empty :
        (r : ℕ) → ends_it (Dict.get g.turns s) t ≡ true → elem r (queue ended s) ≡ false
    unfolding queue
    ended_empty r e =
        let turns = drop_active g.steer.active_turns s t in
        let inv = turns-Inv g.steer turns a.steer_inv in
        ground (
          arith,
          queue-sweep_session (end_verdict t) end_mark (before g a (end_verdict t) end_mark turns s)
              s (inv.distinct s) s,
          ==_iff s s,
          left-subset (end_verdict t) g.steer.objects r 0 (queue g.steer s),
          end_left t g.steer.objects r 0 (queue g.steer s),
          a.steer_inv.sound s r,
          a.bound s r,
          ==_iff (g.steer.objects r).turn_id t,
        )

    abbrev pub final : ActiveTurnRegistry
    final = record closed { steer = (Steer.end_turn closed.steer s t).0 }

    module _ (cs : clean_key s ≡ s) (ct : clean_key t ≡ t) where
      final_steer_bad :
          (is_empty s || is_empty t) ≡ true → (Steer.end_turn closed.steer s t).0 ≡ g.steer
      unfolding Steer.end_turn
      final_steer_bad bad = rw (close_turn_steer s t, cs, ct, bad)

      pub final_steer :
          (is_empty s || is_empty t) ≡ false → (Steer.end_turn closed.steer s t).0 ≡ ended
      unfolding Steer.end_turn
      final_steer good = rw (close_turn_steer s t, cs, ct, good)

      -- An empty key names no turn.
      ends_it_bad : (is_empty s || is_empty t) ≡ true → ends_it (Dict.get g.turns s) t ≡ false
      ends_it_bad bad = elim (Option-cases (Dict.get g.turns s)) [
        | inl e ↦ rw e
        | inr (c, e) ↦ ground (arith, e, a.named s c.turn_id, ==_iff c.turn_id t)
      ]

      final-IsAligned_bad : (is_empty s || is_empty t) ≡ true → IsAligned final
      final-IsAligned_bad bad = record {
        steer_inv = rw (final_steer_bad bad) a.steer_inv;
        same_turns = λ j.
            ground
              (arith, final_steer_bad bad, ends_it_bad bad, close_turn_turns s t j, a.same_turns j);
        named = λ j u e. ground (arith, ends_it_bad bad, close_turn_turns s t j, a.named j u);
        bound = λ j r h.
            ground
              (arith, final_steer_bad bad, ends_it_bad bad, close_turn_turns s t j, a.bound j r);
      }

      ended-Inv : (is_empty s || is_empty t) ≡ false → Inv ended
      unfolding Steer.end_turn
      ended-Inv good = rw (cs, ct, good) at (end_turn-Inv g.steer s t a.steer_inv)

      ended_same_turns : ended.active_turns ≡ drop_active g.steer.active_turns s t
      unfolding queue
      ended_same_turns =
          let turns = drop_active g.steer.active_turns s t in
          (sweep_session-IsSwept (end_verdict t) end_mark
            (before g a (end_verdict t) end_mark turns s) s (a.steer_inv.distinct s)).turns_same

      final-IsAligned_good : (is_empty s || is_empty t) ≡ false → IsAligned final
      final-IsAligned_good good = record {
        steer_inv = rw (final_steer good) (ended-Inv good);
        same_turns = λ j. ground (
          arith,
          final_steer good,
          ended_same_turns,
          close_turn_turns s t j,
          drop_active_turns s t j,
          a.same_turns j,
        );
        named = λ j u e. ground (arith, close_turn_turns s t j, a.named j u);
        bound = λ j r h. ground (
          arith,
          final_steer good,
          close_turn_turns s t j,
          ==_iff s j,
          ended_empty r,
          swept_bound g a (end_verdict t) end_mark (drop_active g.steer.active_turns s t) s j r,
        );
      }

      pub final-IsAligned : IsAligned final
      final-IsAligned = elim (Bool-cases (is_empty s || is_empty t)) [
        | inl bad ↦ final-IsAligned_bad bad
        | inr good ↦ final-IsAligned_good good
      ]
