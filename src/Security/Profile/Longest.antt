-- ===== src/Security/Profile/Longest.antt =====
-- The rule that decides over a path.
use luna_agent.Prelude.{
  ℕ, ◌≤◌, String, ◌≡◌, refl, ap, ◌∙◌, ◌⊎◌, inl, inr, Bool, true, false, List, [], ◌∷◌, arith,
  Bool-cases, if◌then◌else◌, keep, length, All, All-map,
}
use luna_agent.Prelude.Sort.{sorted, insert_sorted}
use luna_agent.Security.Profile.{
  FileSystemRule, PermissionProfile, matches, le_longest, first_access, filesystem_access, deny,
}

-- `rule in rules`
abbrev pub Among : FileSystemRule → List FileSystemRule → Type 0
Among rule [] = ⊥
Among rule (x ∷ xs) = (rule ≡ x) ⊎ Among rule xs

abbrev pub size : FileSystemRule → ℕ
size rule = length rule.path

abbrev pub NoLonger : FileSystemRule → FileSystemRule → Type 0
NoLonger best rule = size rule ≤ size best

-- The first rule of a sorted list is one of the rules, and none is longer.
abbrev Headed : List FileSystemRule → List FileSystemRule → Type 0
Headed rules [] = rules ≡ []
Headed rules (best ∷ rest) = Among best rules × All (NoLonger best) rules

insert-Headed :
    (x : FileSystemRule) (rules ordered : List FileSystemRule)
    → Headed rules ordered
    → Headed (x ∷ rules) (insert_sorted le_longest x ordered)
insert-Headed x rules [] e = (inl refl, (omega arith, rw e tt))
insert-Headed x rules (best ∷ rest) b = elim (Bool-cases (le_longest x best)) [
  | inl longer ↦
      let more : NoLonger x best = ground arith in
      rw longer (inl refl, (omega arith, All-map (λ rule h. omega (arith, h, more)) rules b.1))
  | inr shorter ↦ rw shorter (inr b.0, (ground arith, b.1))
]

sorted-Headed : (rules : List FileSystemRule) → Headed rules (sorted le_longest rules)
sorted-Headed [] = refl
sorted-Headed (x ∷ rules) = insert-Headed x rules (sorted le_longest rules) (sorted-Headed rules)

Among-keep :
    (p : FileSystemRule → Bool) (rule : FileSystemRule) (rules : List FileSystemRule)
    → Among rule (keep p rules)
    → Among rule rules × (p rule ≡ true)
Among-keep p rule [] a = elim a [ ]
Among-keep p rule (x ∷ rules) a = of_test (p x) refl (Among-keep p rule rules) a
  where
    of_test :
        (b : Bool)
        → p x ≡ b
        → (Among rule (keep p rules) → Among rule rules × (p rule ≡ true))
        → Among rule (if b then x ∷ keep p rules else keep p rules)
        → Among rule (x ∷ rules) × (p rule ≡ true)
    of_test true kept more (inl same) = (inl same, ap p same ∙ kept)
    of_test true kept more (inr later) = let (found, holds) = more later in (inr found, holds)
    of_test false dropped more later = let (found, holds) = more later in (inr found, holds)

-- A path that no rule of the profile matches is denied; any other has the access of a rule of the
-- profile that matches it, and no matching rule has a longer path.
pub filesystem_access_longest :
    (profile : PermissionProfile) (path : List String)
    → ((keep (λ rule. matches rule path) profile.filesystem ≡ [])
        × (filesystem_access profile path ≡ deny))
      ⊎ ((best : FileSystemRule) × Among best profile.filesystem
          × (matches best path ≡ true)
          × All (NoLonger best) (keep (λ rule. matches rule path) profile.filesystem)
          × (filesystem_access profile path ≡ best.access))
unfolding filesystem_access
filesystem_access_longest profile path =
    of_sorted (sorted le_longest matching) (sorted-Headed matching)
  where
    matching : List FileSystemRule
    matching = keep (λ rule. matches rule path) profile.filesystem

    of_sorted :
        (ordered : List FileSystemRule)
        → Headed matching ordered
        → ((matching ≡ []) × (first_access ordered ≡ deny))
          ⊎ ((best : FileSystemRule) × Among best profile.filesystem
              × (matches best path ≡ true)
              × All (NoLonger best) matching
              × (first_access ordered ≡ best.access))
    of_sorted [] h = inl (h, refl)
    of_sorted (best ∷ rest) h =
        let (found, holds) = Among-keep (λ rule. matches rule path) best profile.filesystem h.0 in
        inr (best, found, holds, h.1, refl)
