-- ===== src/Gateway/Chain/Change.antt =====
-- What the changes of the links leave.
use luna_agent.Prelude.{
  String, ◌≡◌, refl, sym, ◌∙◌, Bool, true, false, ◌&&◌, ◌||◌, none, some, List, [], ◌∷◌, arith,
  elem, ◌==◌, ==_iff, String_eq, if◌then◌else◌,
}
use luna_agent.Prelude.Dict
use luna_agent.Prelude.Dict.{get-put, get-remove}
use luna_agent.Gateway.Chain.{
  CompressionChain, Links, Write, save, remove_links, any_link, remove_chain,
}

-- Some entry with the key names a target.
abbrev names_target : List String → List (String × String) → String → Bool
names_target targets [] k = false
names_target targets ((old, new) ∷ rest) k =
    ((old == k) && (elem old targets || elem new targets)) || names_target targets rest k

get-remove_links :
    (targets : List String) (entries : List (String × String)) (d : Links) (k : String)
    → Dict.get (remove_links targets entries d) k
      ≡ (if names_target targets entries k then none else Dict.get d k)
unfolding remove_links
get-remove_links targets [] d k = refl
get-remove_links targets ((old, new) ∷ rest) d k = ground (
  arith,
  get-remove_links targets rest d k,
  get-remove_links targets rest (Dict.remove d old) k,
  get-remove d old k,
)

-- The entry that a lookup finds.
named_of_get :
    (targets : List String) (d : Links) (k v : String)
    → Dict.get d k ≡ some v
    → names_target targets d k ≡ false
    → (elem k targets ≡ false) × (elem v targets ≡ false)
unfolding Dict.get
named_of_get targets [] k v e h = cc
named_of_get targets ((old, new) ∷ rest) k v e h =
    ground (arith, named_of_get targets rest k v, ==_iff old k)

names_some :
    (targets : List String) (entries : List (String × String)) (k : String)
    → names_target targets entries k ≡ true
    → any_link targets entries ≡ true
unfolding any_link
names_some targets [] k h = cc
names_some targets ((old, new) ∷ rest) k h = ground (arith, names_some targets rest k)

remove_chain_links :
    (c : CompressionChain) (targets : List String) (write : Write) (k : String)
    → Dict.get (remove_chain c targets write).0.chain k
      ≡ Dict.get (remove_links targets c.chain c.chain) k
unfolding remove_chain save
remove_chain_links c targets write k =
    ground (arith, names_some targets c.chain k, get-remove_links targets c.chain c.chain k)

-- If remove_chain leaves a link, written or not, then neither of its ends is a target and it was a
-- link before.
pub remove_chain_leaves :
    (c : CompressionChain) (targets : List String) (write : Write) (k v : String)
    → Dict.get (remove_chain c targets write).0.chain k ≡ some v
    → (elem k targets ≡ false) × (elem v targets ≡ false) × (Dict.get c.chain k ≡ some v)
remove_chain_leaves c targets write k v e =
    let found : (if names_target targets c.chain k then none else Dict.get c.chain k) ≡ some v =
      sym (get-remove_links targets c.chain c.chain k)
      ∙ sym (remove_chain_links c targets write k)
      ∙ e in
    ground (arith, found, named_of_get targets c.chain k v)
