-- ===== src/Gateway/Chain/Examples.antt =====
-- Small lineages, and the theorems at them.
use luna_agent.Prelude.{
  String, ◌≡◌, refl, ◌⊎◌, true, false, none, some, List, [], ◌∷◌, elem, String_eq,
}
use luna_agent.Prelude.Dict
use luna_agent.Gateway.Chain.{
  CompressionChain, Write, load, write_json_atomic, save, link, resolve_loop, resolve, chain_loop,
  get_chain, remove_links, any_link, remove_chain,
}
use luna_agent.Gateway.Chain.Walk.{last_or, resolve-get_chain}
use luna_agent.Gateway.Chain.Change.{remove_chain_leaves}

-- All that a lineage calls.
program : Unit {0}
unfolding load write_json_atomic save link resolve_loop resolve chain_loop get_chain remove_links
    any_link remove_chain Dict.get Dict.put Dict.remove
program = tt

abbrev three : CompressionChain
three = record { stored = none; chain = ("a", "b") ∷ ("b", "c") ∷ [] }

abbrev targets : List String
targets = "c" ∷ []

abbrev round : CompressionChain
round = record { stored = none; chain = ("a", "b") ∷ ("b", "c") ∷ ("c", "b") ∷ [] }

resolves_to_last : resolve three "a" ≡ some "c"
unfolding program
resolves_to_last = refl

-- On a cycle one method gives the session itself up, and the other lists its lineage all the same.
cycle_resolves_to_itself : resolve round "a" ≡ some "a"
unfolding program
cycle_resolves_to_itself = refl

cycle_has_lineage : get_chain round "a" ≡ some ("a" ∷ "b" ∷ "c" ∷ [])
unfolding program
cycle_has_lineage = refl

resolve-get_chain_example :
    (path : List String) × (get_chain round "a" ≡ some ("a" ∷ path))
    × (((Dict.get round.chain (last_or "a" path) ≡ none)
          × (resolve round "a" ≡ some (last_or "a" path)))
        ⊎ ((next : String) × (Dict.get round.chain (last_or "a" path) ≡ some next)
            × (elem next ("a" ∷ path) ≡ true)
            × (resolve round "a" ≡ some "a")))
resolve-get_chain_example = resolve-get_chain round "a"

remove_chain_leaves_example :
    (elem "a" targets ≡ false) × (elem "b" targets ≡ false) × (Dict.get three.chain "a" ≡ some "b")
unfolding program
remove_chain_leaves_example = remove_chain_leaves three targets Write.written "a" "b" refl
