-- ===== src/Steer/Examples.antt =====
-- Small runs of the steer manager, and its theorems at them.
use luna_agent.Prelude.{◌≡◌, refl, ◌≢◌, true, false, List, [], ◌∷◌, arith, strip, is_empty}
use luna_agent.Prelude.Dict
use luna_agent.Steer.{
  is_pending, SteerManager, begin_turn, add, consume, end_turn, turn_summary, clean_key, clean_text,
  new_signal, evict, append_bounded, queue, bind_turn, expire, sweep_step, sweep, store_back,
  sweep_queue, sweep_session, consume_verdict, consume_mark, end_verdict, end_mark, drop_active,
  steer_items_summary, init,
}
use luna_agent.Steer.Invariant.{Inv}
use luna_agent.Steer.Trace.{
  Call, begins, adds, consumes, ends, step, run, run-init-Inv, run_settled,
}
use luna_agent.Steer.Consume.{Consumed, consume-Consumed, end_turn_clears}

-- All that a run of the manager calls.
program : Unit {0}
unfolding begin_turn add consume end_turn turn_summary clean_key clean_text new_signal evict
    append_bounded queue bind_turn expire sweep_step sweep store_back sweep_queue sweep_session
    consume_verdict consume_mark end_verdict end_mark drop_active steer_items_summary init Dict.get
    Dict.put Dict.remove strip step run
program = tt

abbrev two_added : List Call
two_added = begins " s " "t" ∷ adds "s" 0 " hi " "a" 1 ∷ adds "s" 0 "yo" "b" 2 ∷ []

abbrev two_steers : SteerManager
two_steers = run (init 2 100 10) two_added

abbrev one_consumed : List Call
one_consumed =
    begins " s " "t" ∷ adds "s" 0 " hi " "a" 1 ∷ adds "s" 0 "yo" "b" 2 ∷ consumes "s" "t" 1 9 ∷ []

two_queued : queue two_steers "s" ≡ 0 ∷ 1 ∷ []
unfolding program
two_queued = refl

third_evicts_first : queue (add two_steers "s" 0 "x" "c" 3).0 "s" ≡ 1 ∷ 2 ∷ []
unfolding program
third_evicts_first = refl

consumes_in_order : (consume two_steers "s" "t" 1 9).1 ≡ 0 ∷ []
unfolding program
consumes_in_order = refl

run-init-Inv_example : Inv (run (init 2 100 10) two_added)
run-init-Inv_example = run-init-Inv 2 100 10 two_added

run_settled_example :
    (run (run (init 2 100 10) one_consumed) (ends "s" "t" ∷ [])).objects 0
    ≡ (run (init 2 100 10) one_consumed).objects 0
unfolding program
run_settled_example =
    run_settled (run (init 2 100 10) one_consumed) (ends "s" "t" ∷ []) 0
      (run-init-Inv 2 100 10 one_consumed) (omega arith) refl

consume-Consumed_example :
    let (m', got) = consume two_steers " s" "t" 1 9 in
    Consumed two_steers m' got (clean_key " s") (clean_key "t") 1 9
unfolding program
consume-Consumed_example =
    consume-Consumed two_steers " s" "t" 1 9 (run-init-Inv 2 100 10 two_added) refl refl

abbrev two_turns : List Call
two_turns = begins "s" "t" ∷ adds "s" 0 "hi" "a" 1 ∷ begins "s" "u" ∷ adds "s" 0 "yo" "b" 2 ∷ []

end_turn_clears_example :
    let m' = (end_turn (run (init 2 100 10) two_turns) "s" "t").0 in
    (is_pending (m'.objects 1).status ≡ true)
    × (is_empty (m'.objects 1).turn_id ≡ false)
    × ((m'.objects 1).turn_id ≢ clean_key "t")
unfolding program
end_turn_clears_example =
    end_turn_clears (run (init 2 100 10) two_turns) "s" "t" 1 (run-init-Inv 2 100 10 two_turns) refl
      refl refl
