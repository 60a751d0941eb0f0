-- ===== src/Steer/Registry/Examples.antt =====
-- Small runs of the registry, and its theorems at them.
use luna_agent.Prelude.{◌≡◌, refl, List, [], ◌∷◌, none, strip, String_eq}
use luna_agent.Prelude.Dict
use luna_agent.Steer.{
  begin_turn, add, consume, end_turn, clean_key, clean_text, new_signal, evict, append_bounded,
  queue, bind_turn, expire, sweep_step, sweep, store_back, sweep_queue, sweep_session,
  consume_verdict, consume_mark, end_verdict, end_mark, drop_active, init,
}
use luna_agent.Steer.Registry.{
  ActiveTurn, ActiveTurnRegistry, ok, raised, already_active, new, open_turn, close_turn, put_task,
}
use luna_agent.Steer.Registry
use luna_agent.Steer.Registry.Turns.{IsAligned}
use luna_agent.Steer.Registry.History.{
  Call, begins, ends, adds, step, run, run-new-IsAligned, end_turn_empties, one_turn_at_a_time,
}

-- All that a run of the registry calls.
program : Unit {0}
unfolding begin_turn add consume end_turn clean_key clean_text new_signal evict append_bounded queue
    bind_turn expire sweep_step sweep store_back sweep_queue sweep_session consume_verdict
    consume_mark end_verdict end_mark drop_active init Dict.get Dict.put Dict.remove strip step run
    new open_turn close_turn put_task Registry.begin_turn Registry.end_turn Registry.add
    Registry.consume
program = tt

abbrev busy_calls : List Call
busy_calls = begins "s" "t" "r" none 0 ∷ adds " s" 0 "hi" "a" 1 ∷ []

abbrev busy : ActiveTurnRegistry
busy = run (new (init 2 100 10)) busy_calls

abbrev active : ActiveTurn
active = record { session_key = "s"; turn_id = "t"; request_id = "r"; started_at = 0 }

run-new-IsAligned_example : IsAligned (run (new (init 2 100 10)) busy_calls)
run-new-IsAligned_example = run-new-IsAligned 2 100 10 busy_calls

end_turn_empties_example :
    (Dict.get (Registry.end_turn busy "s" "t").0.turns (clean_key "s") ≡ none)
    × (queue (Registry.end_turn busy "s" "t").0.steer (clean_key "s") ≡ [])
unfolding program
end_turn_empties_example =
    end_turn_empties busy "s" "t" active (run-new-IsAligned 2 100 10 busy_calls) refl refl

-- Turns of other sessions, and the end of another turn.
abbrev others : List Call
others = begins "o" "v" "r" none 1 ∷ ends "s" "v" ∷ []

one_turn_at_a_time_example :
    Registry.begin_turn
      (run (run (new (init 2 100 10)) (begins "s" "t" "r" none 0 ∷ [])) others)
      "s"
      "u"
      "q"
      none
      5
    ≡ raised already_active
unfolding program
one_turn_at_a_time_example =
    one_turn_at_a_time (new (init 2 100 10)) "s" "t" "u" "r" "q" none none 0 5 _ active others refl
      (refl, (refl, tt)) refl
