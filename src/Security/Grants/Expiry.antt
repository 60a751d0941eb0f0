-- ===== src/Security/Grants/Expiry.antt =====
-- When a grant counts.
use luna_agent.Prelude.{
  ℕ, ◌+◌, ◌≤◌, ◌<◌, max, String, ◌≡◌, refl, Bool, true, false, ◌&&◌, ◌||◌, [], ◌∷◌, arith, ◌==◌,
  ==_iff, ==_self, String_eq, ltb,
}
use luna_agent.Prelude.Dict
use luna_agent.Prelude.Dict.{Dict, get-put}
use luna_agent.Security.Profile.{ResourceRequirement, key}
use luna_agent.Security.Grants.{
  SecuritySessionState, unexpired, is_some, prune_expired, has_tool_grant, has_resource_grant,
  grant_tool, grant_resource, tool_end, resource_end,
}

-- A grant for the key is there, and ends after the time.
abbrev pub granted {ℓ} : {G : Type ℓ} → (G → ℕ) → Dict String G → String → ℕ → Bool
granted end [] k now = false
granted end ((j, g) ∷ grants) k now = ((j == k) && ltb now (end g)) || granted end grants k now

module _ {ℓ} {G : Type ℓ} (end : G → ℕ) where
  pub is_some-unexpired :
      (d : Dict String G) (k : String) (now : ℕ)
      → is_some (Dict.get (unexpired end now d) k) ≡ granted end d k now
  unfolding Dict.get
  is_some-unexpired [] k now = refl
  is_some-unexpired ((j, g) ∷ d) k now = ground (arith, is_some-unexpired d k now)

  -- Pruning earlier takes no grant away that counts later.
  pub granted-unexpired :
      (d : Dict String G) (k : String) (earlier now : ℕ)
      → earlier ≤ now
      → granted end (unexpired end earlier d) k now ≡ granted end d k now
  granted-unexpired [] k earlier now h = refl
  granted-unexpired ((j, g) ∷ d) k earlier now h =
      ground (arith, granted-unexpired d k earlier now h)

  pub granted_earlier :
      (d : Dict String G) (k : String) (earlier now : ℕ)
      → earlier ≤ now
      → granted end d k now ≡ true
      → granted end d k earlier ≡ true
  granted_earlier [] k earlier now h e = cc
  granted_earlier ((j, g) ∷ d) k earlier now h e = ground (arith, granted_earlier d k earlier now h)

  pub granted-put :
      (d : Dict String G) (k : String) (g : G) (j : String) (now : ℕ)
      → now < end g
      → ((k == j) || granted end d j now) ≡ true
      → granted end (Dict.put d k g) j now ≡ true
  unfolding Dict.put
  granted-put [] k g j now h e = ground arith
  granted-put ((i, x) ∷ d) k g j now h e =
      ground (arith, granted-put d k g j now h, ==_iff i k, ==_iff k j, ==_iff i j)

pub has_tool_grant_lem :
    (s : SecuritySessionState) (k : String) (now : ℕ)
    → ((has_tool_grant s k now).0 ≡ prune_expired s now)
      × ((has_tool_grant s k now).1 ≡ granted tool_end s.tool_grants k now)
unfolding has_tool_grant prune_expired
has_tool_grant_lem s k now = (refl, is_some-unexpired tool_end s.tool_grants k now)

pub has_resource_grant_lem :
    (s : SecuritySessionState) (r : ResourceRequirement) (now : ℕ)
    → ((has_resource_grant s r now).0 ≡ prune_expired s now)
      × ((has_resource_grant s r now).1 ≡ granted resource_end s.resource_grants (key r) now)
unfolding has_resource_grant prune_expired
has_resource_grant_lem s r now =
    (refl, is_some-unexpired resource_end s.resource_grants (key r) now)

-- A grant counts before its end, and takes away no other that does.
pub grant_tool_lem :
    (s : SecuritySessionState) (k : String) (ttl now late : ℕ)
    → late < now + max 1 ttl
    → (granted tool_end (grant_tool s k ttl now).0.tool_grants k late ≡ true)
      × ((grant_tool s k ttl now).0.resource_grants ≡ s.resource_grants)
unfolding grant_tool
grant_tool_lem s k ttl now late h =
    (granted-put tool_end s.tool_grants k _ k late h (ground (arith, ==_self k)), refl)

pub grant_resource_lem :
    (s : SecuritySessionState) (r : ResourceRequirement) (ttl now late : ℕ) (k : String)
    → late < now + max 1 ttl
    → ((key r == k) || granted resource_end s.resource_grants k late) ≡ true
    → (granted resource_end (grant_resource s r ttl now).0.resource_grants k late ≡ true)
unfolding grant_resource
grant_resource_lem s r ttl now late k h e =
    granted-put resource_end s.resource_grants (key r) _ k late h e

pub grant_resource_tools :
    (s : SecuritySessionState) (r : ResourceRequirement) (ttl now : ℕ)
    → (grant_resource s r ttl now).0.tool_grants ≡ s.tool_grants
unfolding grant_resource
grant_resource_tools s r ttl now = refl
