-- ===== src/Gateway/Chain.antt =====
-- src/luna_agent/gateway/compression_chain.py: CompressionChain. `stored` is what the file holds.
-- How a write of the file ends is an argument. A loop has fuel, and a result of no value stands for
-- fuel that ran out.
pub mod Walk
pub mod Change
mod Examples
use luna_agent.Prelude.{
  ℕ, zero, suc, String, Bool, true, false, not, ◌||◌, Option, none, some, List, [], ◌∷◌, ◌++◌, elem,
  ◌==◌, String_eq, if◌then◌else◌, length,
}
use luna_agent.Prelude.Dict
use luna_agent.Prelude.Dict.{Dict}

abbrev pub Links : Type 0
Links = Dict String String

pub record CompressionChain : Type 0 where
  pub stored : Option Links
  pub chain : Links

unfoldable pub load : CompressionChain → CompressionChain
load c = elim c.stored [ none ↦ c | some links ↦ record c { chain = links } ]

-- How `write_json_atomic` ends: it returns, or it raises before the file is replaced, or after.
pub data Write : Type 0 where
  written raises_before raises_after : Write

-- What the file holds, and whether the call raised.
unfoldable pub write_json_atomic : Option Links → Links → Write → Option Links × Bool
write_json_atomic stored links written = (some links, false)
write_json_atomic stored links raises_before = (stored, true)
write_json_atomic stored links raises_after = (some links, true)

-- The state, and whether the call raised.
unfoldable pub save : CompressionChain → Write → CompressionChain × Bool
save c write =
    let wrote = write_json_atomic c.stored c.chain write in (record c { stored = wrote.0 }, wrote.1)

unfoldable pub link : CompressionChain → (old new : String) → Write → CompressionChain × Bool
link c old new write =
    let updated = Dict.put c.chain old new in
    let wrote = write_json_atomic c.stored updated write in
    (record { stored = wrote.0; chain = if wrote.1 then c.chain else updated }, wrote.1)

-- The loop of `resolve`.
unfoldable pub resolve_loop :
    Links → (fuel : ℕ) → (session current : String) → List String → Option String
resolve_loop d zero session current seen = none
resolve_loop d (suc fuel) session current seen = elim (Dict.get d current) [
  | none ↦ some current
  | some next ↦
      let rest = resolve_loop d fuel session next (next ∷ seen) in
      if elem next seen then some session else rest
]

unfoldable pub resolve : CompressionChain → String → Option String
resolve c session = resolve_loop c.chain (suc (suc (length c.chain))) session session (session ∷ [])

-- The loop of `get_chain`.
unfoldable pub chain_loop :
    Links → (fuel : ℕ) → String → List String → List String → Option (List String)
chain_loop d zero current seen result = none
chain_loop d (suc fuel) current seen result = elim (Dict.get d current) [
  | none ↦ some result
  | some next ↦
      let rest = chain_loop d fuel next (next ∷ seen) (result ++ next ∷ []) in
      if elem next seen then some result else rest
]

unfoldable pub get_chain : CompressionChain → String → Option (List String)
get_chain c session =
    chain_loop c.chain (suc (suc (length c.chain))) session (session ∷ []) (session ∷ [])

abbrev pub tail_of : Option (List String) → Option (List String)
tail_of none = none
tail_of (some []) = some []
tail_of (some (x ∷ xs)) = some xs

abbrev pub get_descendants : CompressionChain → String → Option (List String)
get_descendants c session = tail_of (get_chain c session)

-- The loop of `remove_chain` over the entries that were there when it began.
unfoldable pub remove_links : List String → List (String × String) → Links → Links
remove_links targets [] d = d
remove_links targets ((old, new) ∷ rest) d =
    if elem old targets || elem new targets
    then remove_links targets rest (Dict.remove d old)
    else remove_links targets rest d

unfoldable pub any_link : List String → List (String × String) → Bool
any_link targets [] = false
any_link targets ((old, new) ∷ rest) = elem old targets || elem new targets || any_link targets rest

-- The file is written only where something was removed.
unfoldable pub remove_chain : CompressionChain → List String → Write → CompressionChain × Bool
remove_chain c targets write =
    let left = record c { chain = remove_links targets c.chain c.chain } in
    if any_link targets c.chain then save left write else (c, false)
