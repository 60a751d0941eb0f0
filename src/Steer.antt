-- ===== src/Steer.antt =====
-- src/luna_agent/conversation/steer.py: the class SteerManager.
-- Signals are mutable objects that a queue and the history share, so they live on a heap of
-- objects, and a deque holds references. A method returns the new manager. The id (uuid4) and the
-- time are arguments, one reading of the clock for a whole call; a time is a number of ticks, and
-- `source` is the handle of any object.
pub mod Registry
mod Scan
mod Session
mod Evict
pub mod Invariant
pub mod Kept
pub mod Consume
pub mod Trace
mod Examples
use luna_agent.Prelude.{
  ℕ, suc, ◌+◌, ◌-◌, max, String, Bool, true, false, not, ◌&&◌, ◌||◌, Option, none, some, List, [],
  ◌∷◌, ◌++◌, map, leb, ltb, if◌then◌else◌, ◌==◌, ℕ_eq, String_eq, length, drop, keep, fold,
  is_empty, strip, rstrip, text_length, text_take,
}
use luna_agent.Prelude.Dict
use luna_agent.Prelude.Dict.{Dict}

pub data SteerStatus : Type 0 where
  pending consumed expired : SteerStatus

pub record SteerSignal : Type 0 where
  pub id : String
  pub session_key : String
  pub text : String
  pub source : ℕ
  pub created_at : ℕ
  pub turn_id : String
  pub status : SteerStatus
  pub consumed_at : ℕ

abbrev pub is_pending : SteerStatus → Bool
is_pending pending = true
is_pending _ = false

abbrev pub is_consumed : SteerStatus → Bool
is_consumed consumed = true
is_consumed _ = false

abbrev pub is_expired : SteerStatus → Bool
is_expired expired = true
is_expired _ = false

-- The objects that were made so far stand at the references below `made`.
abbrev pub Objects : Type 0
Objects = ℕ → SteerSignal

pub record SteerManager : Type 0 where
  pub max_pending_per_session : ℕ
  pub max_text_chars : ℕ
  pub recent_limit : ℕ
  pub pendings : Dict String (List ℕ)
  pub active_turns : Dict String String
  pub recent : List ℕ
  pub objects : Objects
  pub made : ℕ

abbrev blank : SteerSignal
blank = record {
  id = "";
  session_key = "";
  text = "";
  source = 0;
  created_at = 0;
  turn_id = "";
  status = expired;
  consumed_at = 0;
}

pub init : ℕ → ℕ → ℕ → SteerManager
init max_pending max_text recents = record {
  max_pending_per_session = max 1 max_pending;
  max_text_chars = max 1 max_text;
  recent_limit = max 1 recents;
  pendings = [];
  active_turns = [];
  recent = [];
  objects = λ r. blank;
  made = 0;
}

pub clean_key : String → String
clean_key value = strip value

pub clean_text : String → ℕ → String
clean_text value limit =
    let text = strip value in
    if leb (text_length text) limit then text else rstrip (text_take limit text)

abbrev pub get_or {ℓ} : {A : Type ℓ} → Option A → A → A
get_or none d = d
get_or (some a) d = a

-- `self._pending.get(session, ())`
pub queue : SteerManager → String → List ℕ
queue m session = get_or (Dict.get m.pendings session) []

abbrev pub write : Objects → ℕ → SteerSignal → Objects
write objects r signal = λ q. if q == r then signal else objects q

-- The body of the loop of `begin_turn`.
pub bind_turn : String → Objects → ℕ → Objects
bind_turn turn objects r =
    if is_pending (objects r).status && is_empty (objects r).turn_id
    then write objects r (record (objects r) { turn_id = turn })
    else objects

pub begin_turn : SteerManager → String → String → SteerManager
begin_turn m session_key turn_id =
    let session = clean_key session_key in
    let turn = clean_key turn_id in
    if is_empty session || is_empty turn then m else record m {
      active_turns = Dict.put m.active_turns session turn;
      objects = fold (bind_turn turn) m.objects (queue m session);
    }

pub expire : SteerSignal → SteerSignal
expire signal = if is_pending signal.status then record signal { status = expired } else signal

-- The `while` loop of `add`. The limit is at least 1, so an empty queue ends the loop.
pub evict : ℕ → List ℕ → Objects → List ℕ × Objects
evict limit [] objects = ([], objects)
evict limit (r ∷ rest) objects =
    let evicted = evict limit rest (write objects r (expire (objects r))) in
    if leb limit (length (r ∷ rest)) then evicted else (r ∷ rest, objects)

-- `deque(maxlen=limit).append(r)`
pub append_bounded : ℕ → List ℕ → ℕ → List ℕ
append_bounded limit recent r = let all = recent ++ r ∷ [] in drop (length all - limit) all

pub new_signal : SteerManager → String → ℕ → String → (id : String) (now : ℕ) → SteerSignal
new_signal m session source text id now = record {
  id = id;
  session_key = session;
  text = clean_text text m.max_text_chars;
  source = source;
  created_at = now;
  turn_id = get_or (Dict.get m.active_turns session) "";
  status = pending;
  consumed_at = 0;
}

pub add : SteerManager → String → ℕ → String → (id : String) (now : ℕ) → SteerManager × ℕ
add m session_key source text id now =
    let session = clean_key session_key in
    let signal = new_signal m session source text id now in
    let (kept, objects) = evict m.max_pending_per_session (queue m session) m.objects in
    (
      record m {
        pendings = Dict.put m.pendings session (kept ++ m.made ∷ []);
        recent = append_bounded m.recent_limit m.recent m.made;
        objects = write objects m.made signal;
        made = suc m.made;
      },
      m.made,
    )

-- What the loops of `consume` and `end_turn` do with the signal that they pop.
pub data Verdict : Type 0 where
  forget select retain : Verdict

pub record Sweep : Type 0 where
  pub objects : Objects
  pub selected : List ℕ
  pub remaining : List ℕ

module _ (verdict : ℕ → SteerSignal → Verdict) (mark : SteerSignal → SteerSignal) where
  pub sweep_step : Sweep → ℕ → Sweep
  sweep_step s r = elim (verdict (length s.selected) (s.objects r)) [
    | forget ↦ s
    | select ↦ record s {
      objects = write s.objects r (mark (s.objects r));
      selected = s.selected ++ r ∷ [];
    }
    | retain ↦ record s { remaining = s.remaining ++ r ∷ [] }
  ]

  pub sweep : Objects → List ℕ → Sweep
  sweep objects q = fold sweep_step (record { objects = objects; selected = []; remaining = [] }) q

-- The queue that is left goes back under its session, and an empty one is dropped.
pub store_back : SteerManager → String → Sweep → SteerManager
store_back m session s = elim s.remaining [
  | [] ↦ record m { pendings = Dict.remove m.pendings session; objects = s.objects }
  | _ ∷ _ ↦ record m { pendings = Dict.put m.pendings session s.remaining; objects = s.objects }
]

module _ (verdict : ℕ → SteerSignal → Verdict) (mark : SteerSignal → SteerSignal) (m : SteerManager)
    (session : String) where
  -- `if not queue: return`, and else the loop and what follows it.
  pub sweep_queue : List ℕ → SteerManager × List ℕ
  sweep_queue [] = (m, [])
  sweep_queue (r ∷ rest) =
      let s = sweep verdict mark m.objects (r ∷ rest) in (store_back m session s, s.selected)

  pub sweep_session : SteerManager × List ℕ
  sweep_session = sweep_queue (queue m session)

pub consume_verdict : String → ℕ → ℕ → SteerSignal → Verdict
consume_verdict turn max_count taken signal =
    if not (is_pending signal.status)
    then forget
    else if signal.turn_id == turn && ltb taken max_count
    then select
    else retain

pub consume_mark : ℕ → SteerSignal → SteerSignal
consume_mark now signal = record signal { status = consumed; consumed_at = now }

pub consume : SteerManager → String → String → (limit now : ℕ) → SteerManager × List ℕ
consume m session_key turn_id limit now =
    let session = clean_key session_key in
    let turn = clean_key turn_id in
    if is_empty session || is_empty turn
    then (m, [])
    else sweep_session (consume_verdict turn (max 1 limit)) (consume_mark now) m session

pub end_verdict : String → ℕ → SteerSignal → Verdict
end_verdict turn taken signal =
    if is_pending signal.status && (is_empty signal.turn_id || signal.turn_id == turn)
    then select
    else retain

pub end_mark : SteerSignal → SteerSignal
end_mark signal = record signal { status = expired }

-- `if self._active_turns.get(session) == turn: self._active_turns.pop(session, None)`
pub drop_active : Dict String String → String → String → Dict String String
drop_active turns session turn = elim (Dict.get turns session) [
  | none ↦ turns
  | some current ↦ if current == turn then Dict.remove turns session else turns
]

pub end_turn : SteerManager → String → String → SteerManager × List ℕ
end_turn m session_key turn_id =
    let session = clean_key session_key in
    let turn = clean_key turn_id in
    if is_empty session || is_empty turn
    then (m, [])
    else sweep_session (end_verdict turn) end_mark
        (record m { active_turns = drop_active m.active_turns session turn }) session

pub record Summary : Type 0 where
  pub received : ℕ
  pub consumed_count : ℕ
  pub expired_count : ℕ
  pub pending_count : ℕ

pub steer_items_summary : List SteerSignal → Summary
steer_items_summary items = record {
  received = length items;
  consumed_count = length (keep (λ i. is_consumed i.status) items);
  expired_count = length (keep (λ i. is_expired i.status) items);
  pending_count = length (keep (λ i. is_pending i.status) items);
}

pub turn_summary : SteerManager → String → String → Summary
turn_summary m session_key turn_id =
    let session = clean_key session_key in
    let turn = clean_key turn_id in
    steer_items_summary
      (keep (λ i. i.session_key == session && i.turn_id == turn) (map m.objects m.recent))
