-- ===== src/Gateway/Chain/Walk.antt =====
-- The walks along the links end, and agree.
use luna_agent.Prelude.{
  ℕ, zero, suc, ◌+◌, ◌≤◌, ◌<◌, String, ◌≡◌, refl, ap, ◌⊎◌, inl, inr, true, false, ◌||◌, none, some,
  List, [], ◌∷◌, ◌++◌, arith, elem, ==_iff, String_eq, if◌then◌else◌, Bool-cases, Option-cases,
  length,
}
use luna_agent.Prelude.Dict
use luna_agent.Gateway.Chain.{CompressionChain, Links, resolve_loop, resolve, chain_loop, get_chain}

-- How many links start at a session that was not seen.
abbrev unseen : Links → List String → ℕ
unseen [] seen = 0
unseen ((old, new) ∷ d) seen = (if elem old seen then 0 else 1) + unseen d seen

unseen-le : (d : Links) (seen : List String) → unseen d seen ≤ length d
unseen-le [] seen = omega arith
unseen-le ((old, new) ∷ d) seen = ground (arith, unseen-le d seen)

unseen-more : (d : Links) (seen : List String) (x : String) → unseen d (x ∷ seen) ≤ unseen d seen
unseen-more [] seen x = omega arith
unseen-more ((old, new) ∷ d) seen x = ground (arith, unseen-more d seen x)

-- Seeing the start of a link leaves fewer.
unseen-fewer :
    (d : Links) (seen : List String) (x y : String)
    → Dict.get d x ≡ some y
    → elem x seen ≡ false
    → unseen d (x ∷ seen) < unseen d seen
unfolding Dict.get
unseen-fewer [] seen x y e h = cc
unseen-fewer ((old, new) ∷ d) seen x y e h =
    ground (arith, unseen-fewer d seen x y, unseen-more d seen x, ==_iff x old, ==_iff old x)

abbrev pub last_or : String → List String → String
last_or x [] = x
last_or x (y ∷ ys) = last_or y ys

-- The sessions that a walk visits after its first, and how both loops end.
record Walked (d : Links) (fuel : ℕ) (session current : String) (seen result : List String)
    : Type 0 where
  path : List String
  chain_is : chain_loop d fuel current seen result ≡ some (result ++ path)
  ends :
      ((Dict.get d (last_or current path) ≡ none)
        × (resolve_loop d fuel session current seen ≡ some (last_or current path)))
      ⊎ ((next : String) × (Dict.get d (last_or current path) ≡ some next)
          × ((elem next seen || elem next path) ≡ true)
          × (resolve_loop d fuel session current seen ≡ some session))

append-nil : (xs : List String) → xs ++ [] ≡ xs
append-nil [] = refl
append-nil (x ∷ xs) = ap (λ ys. x ∷ ys) (append-nil xs)

append_snoc : (xs ys : List String) (x : String) → (xs ++ x ∷ []) ++ ys ≡ xs ++ x ∷ ys
append_snoc [] ys x = refl
append_snoc (z ∷ xs) ys x = ap (λ zs. z ∷ zs) (append_snoc xs ys x)

-- A walk stops where no link starts.
walk_stops :
    (d : Links) (fuel : ℕ) (session current : String) (seen result : List String)
    → Dict.get d current ≡ none
    → Walked d (suc fuel) session current seen result
unfolding chain_loop resolve_loop
walk_stops d fuel session current seen result e = record {
  path = [];
  chain_is = ground (arith, e, append-nil result);
  ends = inl (e, ground (arith, e));
}

walk_turns :
    (d : Links) (fuel : ℕ) (session current next : String) (seen result : List String)
    → Dict.get d current ≡ some next
    → elem next seen ≡ true
    → Walked d (suc fuel) session current seen result
unfolding chain_loop resolve_loop
walk_turns d fuel session current next seen result e h = record {
  path = [];
  chain_is = ground (arith, e, append-nil result);
  ends = inr (next, e, ground arith, ground (arith, e));
}

walk_steps :
    (d : Links) (fuel : ℕ) (session current next : String) (seen result : List String)
    → Dict.get d current ≡ some next
    → elem next seen ≡ false
    → Walked d fuel session next (next ∷ seen) (result ++ next ∷ [])
    → Walked d (suc fuel) session current seen result
unfolding chain_loop resolve_loop
walk_steps d fuel session current next seen result e h w = record {
  path = next ∷ w.path;
  chain_is = ground (arith, e, w.chain_is, append_snoc result w.path next);
  ends = elim w.ends [
    | inl (stop, found) ↦ inl (stop, ground (arith, e))
    | inr (z, more, known, found) ↦ inr (z, more, ground arith, ground (arith, e))
  ];
}

walk :
    (d : Links) (fuel : ℕ) (session current : String) (seen result : List String)
    → unseen d seen < fuel
    → Walked d (suc fuel) session current seen result
walk d zero session current seen result h = absurd (omega arith)
walk d (suc fuel) session current seen result h = elim (Option-cases (Dict.get d current)) [
  | inl stop ↦ walk_stops d (suc fuel) session current seen result stop
  | inr (next, e) ↦ elim (Bool-cases (elem next seen)) [
    | inl turns ↦ walk_turns d (suc fuel) session current next seen result e turns
    | inr fresh ↦
        walk_steps d (suc fuel) session current next seen result e fresh
          (elim (Option-cases (Dict.get d next)) [
            | inl stop ↦ walk_stops d fuel session next (next ∷ seen) (result ++ next ∷ []) stop
            | inr (z, e') ↦
                walk d fuel session next (next ∷ seen) (result ++ next ∷ [])
                  (ground (arith, unseen-fewer d seen next z e' fresh))
          ])
  ]
]

-- The loops of get_chain and resolve end. Where no link starts at the last session of the lineage,
-- resolve gives that session; otherwise its link leads back into the lineage, and resolve gives the
-- session that was asked for.
pub resolve-get_chain :
    (c : CompressionChain) (session : String)
    → (path : List String) × (get_chain c session ≡ some (session ∷ path))
      × (((Dict.get c.chain (last_or session path) ≡ none)
            × (resolve c session ≡ some (last_or session path)))
          ⊎ ((next : String) × (Dict.get c.chain (last_or session path) ≡ some next)
              × (elem next (session ∷ path) ≡ true)
              × (resolve c session ≡ some session)))
unfolding get_chain resolve
resolve-get_chain c session =
    let w =
      walk c.chain (suc (length c.chain)) session session (session ∷ []) (session ∷ [])
        (ground (arith, unseen-le c.chain (session ∷ []))) in
    (
      w.path,
      w.chain_is,
      elim w.ends [
        | inl found ↦ inl found
        | inr (next, more, known, found) ↦ inr (next, more, ground arith, found)
      ],
    )
