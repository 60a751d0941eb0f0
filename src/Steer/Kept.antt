-- ===== src/Steer/Kept.antt =====
-- The operations of SteerManager, of src/luna_agent/conversation/steer.py, and its invariant.
use luna_agent.Prelude.{
  ℕ, suc, max, ◌<◌, ◌≡◌, refl, ◌⊎◌, inl, inr, ◌≢◌, true, false, ◌||◌, List, [], ◌∷◌, arith, ℕ_eq,
  String, String_eq, ==_iff, elem, elem-append, Distinct-snoc, length-append, fold, Bool-cases,
  is_empty,
}
use luna_agent.Prelude.Dict.{Dict}
use luna_agent.Steer.{
  SteerManager, Objects, queue, is_pending, expire, bind_turn, begin_turn, add, consume, end_turn,
  consume_verdict, consume_mark, end_verdict, end_mark, new_signal, clean_key,
}
use luna_agent.Steer.Evict.{
  evict-length, evict_subset, evict-Distinct, kept, queue-add, add_objects,
}
use luna_agent.Steer.Invariant.{Inv, sweep_session-Inv}

-- The loop of `begin_turn` writes turns only.
fold-bind_turn :
    (turn : String) (q : List ℕ) (o : Objects) (r : ℕ)
    → ((fold (bind_turn turn) o q r).status ≡ (o r).status)
      × ((fold (bind_turn turn) o q r).session_key ≡ (o r).session_key)
unfolding bind_turn
fold-bind_turn turn [] o r = (refl, refl)
fold-bind_turn turn (x ∷ q) o r =
    ground (arith, ==_iff x r, fold-bind_turn turn q (bind_turn turn o x) r)

pub begin_turn-Inv :
    (m : SteerManager) (session turn : String) → Inv m → Inv (begin_turn m session turn)
unfolding begin_turn queue
begin_turn-Inv m session turn inv =
    elim (Bool-cases (is_empty (clean_key session) || is_empty (clean_key turn))) [
      | inl bad ↦ rw (bad, begin_turn) inv
      | inr good ↦
          rw (good, begin_turn)
            (record {
              room = inv.room;
              bounded = inv.bounded;
              distinct = inv.distinct;
              sound = λ s r h. ground (arith, same r, inv.sound s r);
              complete = λ r h p. ground (arith, same r, inv.complete r);
            })
    ]
  where
    same :
        (r : ℕ)
        → let o' = fold (bind_turn (clean_key turn)) m.objects (queue m (clean_key session)) in
          ((o' r).status ≡ (m.objects r).status) × ((o' r).session_key ≡ (m.objects r).session_key)
    same = fold-bind_turn (clean_key turn) (queue m (clean_key session)) m.objects

module _ (m : SteerManager) (session_key : String) (source : ℕ) (text id : String) (now : ℕ)
    (inv : Inv m) where
  abbrev m₁ : SteerManager
  m₁ = (add m session_key source text id now).0

  abbrev held : List ℕ
  held = queue m (clean_key session_key)

  abbrev kept_refs : List ℕ
  kept_refs = kept m session_key source text id now

  unseen : elem m.made kept_refs ≡ false
  unseen = ground (
    arith,
    evict_subset m.max_pending_per_session held m.objects m.made,
    inv.sound (clean_key session_key) m.made,
  )

  add_sound :
      (s : String) (r : ℕ)
      → elem r (queue m₁ s) ≡ true
      → (r < suc m.made)
        × (is_pending (m₁.objects r).status ≡ true)
        × ((m₁.objects r).session_key ≡ s)
  unfolding new_signal
  add_sound s r h = ground (
    arith,
    queue-add m session_key source text id now s,
    add_objects m session_key source text id now (inv.distinct (clean_key session_key)) r,
    ==_iff (clean_key session_key) s,
    ==_iff m.made r,
    elem-append r kept_refs (m.made ∷ []),
    evict_subset m.max_pending_per_session held m.objects r,
    inv.sound s r,
    inv.sound (clean_key session_key) r,
  )

  -- A signal that is pending afterwards is the new one, or was pending and was not evicted.
  add_pending :
      (r : ℕ)
      → is_pending (m₁.objects r).status ≡ true
      → ((r ≡ m.made) × ((m₁.objects r).session_key ≡ clean_key session_key))
        ⊎ ((r ≢ m.made)
            × (m₁.objects r ≡ m.objects r)
            × ((elem r held ≡ false) ⊎ (elem r kept_refs ≡ true)))
  unfolding new_signal expire
  add_pending r p =
      ground (
        arith,
        add_objects m session_key source text id now (inv.distinct (clean_key session_key)) r,
      )

  add_complete :
      (r : ℕ)
      → r < suc m.made
      → is_pending (m₁.objects r).status ≡ true
      → elem r (queue m₁ (m₁.objects r).session_key) ≡ true
  add_complete r h p = elim (add_pending r p) [
    | inl (new, key) ↦ rw key (
        ground (
          arith,
          queue-add m session_key source text id now (clean_key session_key),
          ==_iff (clean_key session_key) (clean_key session_key),
          ==_iff m.made r,
          elem-append r kept_refs (m.made ∷ []),
        ))
    | inr (old, same, stays) ↦ rw same (
        ground (
          arith,
          same,
          queue-add m session_key source text id now (m.objects r).session_key,
          ==_iff (clean_key session_key) (m.objects r).session_key,
          elem-append r kept_refs (m.made ∷ []),
          inv.complete r,
        ))
  ]

  pub add-Inv : Inv (add m session_key source text id now).0
  unfolding add
  add-Inv = record {
    room = inv.room;
    bounded = λ s. ground (
      arith,
      queue-add m session_key source text id now s,
      length-append kept_refs (m.made ∷ []),
      evict-length m.max_pending_per_session held m.objects inv.room,
      inv.bounded s,
    );
    distinct = λ s. ground (
      arith,
      queue-add m session_key source text id now s,
      Distinct-snoc m.made kept_refs unseen (
          evict-Distinct m.max_pending_per_session held m.objects
            (inv.distinct (clean_key session_key))),
      inv.distinct s,
    );
    sound = add_sound;
    complete = add_complete;
  }

pub consume-Inv :
    (m : SteerManager) (session turn : String) (limit now : ℕ)
    → Inv m
    → Inv (consume m session turn limit now).0
unfolding consume consume_verdict consume_mark
consume-Inv m session turn limit now inv =
    elim (Bool-cases (is_empty (clean_key session) || is_empty (clean_key turn))) [
      | inl bad ↦ rw (bad, consume) inv
      | inr good ↦
          rw (good, consume)
            (sweep_session-Inv (consume_verdict (clean_key turn) (max 1 limit)) (consume_mark now)
              (λ k x p. ground arith) (λ x. refl) m (clean_key session) inv)
    ]

-- Which turns are active does not matter to the invariant.
pub turns-Inv :
    (m : SteerManager) (turns : Dict String String)
    → Inv m
    → Inv (record m { active_turns = turns })
unfolding queue
turns-Inv m turns inv = record {
  room = inv.room;
  bounded = inv.bounded;
  distinct = inv.distinct;
  sound = inv.sound;
  complete = inv.complete;
}

pub end_turn-Inv :
    (m : SteerManager) (session turn : String) → Inv m → Inv (end_turn m session turn).0
unfolding end_turn end_verdict end_mark
end_turn-Inv m session turn inv =
    elim (Bool-cases (is_empty (clean_key session) || is_empty (clean_key turn))) [
      | inl bad ↦ rw (bad, end_turn) inv
      | inr good ↦
          rw (good, end_turn)
            (sweep_session-Inv (end_verdict (clean_key turn)) end_mark (λ k x p. ground arith)
              (λ x. refl) _ (clean_key session) (turns-Inv m _ inv))
    ]
