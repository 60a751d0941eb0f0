-- ===== src/Capability/Router/Payloads.antt =====
-- The payloads that the router drops, updates and puts back.
use luna_agent.Prelude.{
  ℕ, String, ◌≡◌, ◌≢◌, refl, inl, inr, Bool, false, not, ◌&&◌, ◌||◌, none, List, [], ◌∷◌, arith,
  ◌==◌, ℕ_eq, String_eq, ==_iff, if◌then◌else◌, elem, Option-cases,
}
use luna_agent.Prelude.Dict
use luna_agent.Prelude.Dict.{get-put, get-remove}
use luna_agent.Capability.Router.{
  Payloads, update, drop_payloads, previous_payloads, restore_payloads,
}

pub get-drop_payloads :
    (payloads : Payloads) (dropped retained : List String) (id : String)
    → Dict.get (drop_payloads payloads dropped retained) id
      ≡ (if elem id dropped && not (elem id retained) then none else Dict.get payloads id)
unfolding drop_payloads
get-drop_payloads payloads [] retained id = refl
get-drop_payloads payloads (x ∷ rest) retained id = ground (
  arith,
  get-drop_payloads payloads rest retained id,
  get-remove (drop_payloads payloads rest retained) x id,
  ==_iff x id,
)

abbrev has_id {ℓ} : {V : Type ℓ} → String → List (String × V) → Bool
has_id id [] = false
has_id id ((k, v) ∷ rest) = (k == id) || has_id id rest

-- An update changes the lookups of its own ids alone.
get-update_other :
    (payloads changes : Payloads) (id : String)
    → has_id id changes ≡ false
    → Dict.get (update payloads changes) id ≡ Dict.get payloads id
unfolding update
get-update_other payloads [] id h = refl
get-update_other payloads ((k, v) ∷ rest) id h =
    ground (arith, get-update_other (Dict.put payloads k v) rest id, get-put payloads k v id)

get-restore_payloads :
    (base payloads changes : Payloads) (id : String)
    → Dict.get (restore_payloads payloads (previous_payloads base changes)) id
      ≡ (if has_id id changes then Dict.get base id else Dict.get payloads id)
unfolding restore_payloads previous_payloads
get-restore_payloads base payloads [] id = refl
get-restore_payloads base payloads ((k, v) ∷ rest) id = elim (Option-cases (Dict.get base k)) [
  | inl absent ↦
      rw (absent, restore_payloads)
        (ground (
          arith,
          get-restore_payloads base (Dict.remove payloads k) rest id,
          get-remove payloads k id,
          ==_iff k id,
        ))
  | inr (p, present) ↦
      rw (present, restore_payloads)
        (ground (
          arith,
          get-restore_payloads base (Dict.put payloads k p) rest id,
          get-put payloads k p id,
          ==_iff k id,
        ))
]

-- Putting the old payloads back undoes an update.
pub restore_payloads-update :
    (payloads changes : Payloads) (id : String)
    → Dict.get (restore_payloads (update payloads changes) (previous_payloads payloads changes)) id
      ≡ Dict.get payloads id
restore_payloads-update payloads changes id = ground (
  arith,
  get-restore_payloads payloads (update payloads changes) changes id,
  get-update_other payloads changes id,
)

-- An update takes no payload away.
pub update_present :
    (payloads changes : Payloads) (id : String)
    → Dict.get payloads id ≢ none
    → Dict.get (update payloads changes) id ≢ none
unfolding update
update_present payloads [] id h = h
update_present payloads ((k, v) ∷ rest) id h =
    update_present (Dict.put payloads k v) rest id (put_present payloads k v id h)
  where
    put_present :
        (d : Payloads) (k : String) (v : ℕ) (id : String)
        → Dict.get d id ≢ none
        → Dict.get (Dict.put d k v) id ≢ none
    put_present d k v id h e = ground (arith, get-put d k v id, h)
