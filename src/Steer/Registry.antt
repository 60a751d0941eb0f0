-- ===== src/Steer/Registry.antt =====
-- src/luna_agent/conversation/steer.py: the class ActiveTurnRegistry, which owns the turns and
-- forwards to the SteerManager. A task is the handle of an asyncio task; whether it is done is
-- asyncio's to say, so `cancel` takes that as an argument.
pub mod Turns
pub mod Ending
pub mod History
mod Examples
use luna_agent.Prelude.{
  ℕ, String, Bool, ◌||◌, Option, none, some, List, [], if◌then◌else◌, ◌==◌, String_eq, is_empty,
}
use luna_agent.Prelude.Dict
use luna_agent.Prelude.Dict.{Dict}
use luna_agent.Steer.{SteerManager, clean_key}
use luna_agent.Steer

pub record ActiveTurn : Type 0 where
  pub session_key : String
  pub turn_id : String
  pub request_id : String
  pub started_at : ℕ

pub record ActiveTurnRegistry : Type 0 where
  pub steer : SteerManager
  pub turns : Dict String ActiveTurn
  pub tasks : Dict String ℕ

pub data TurnError : Type 0 where
  keys_required already_active no_active_turn : TurnError

pub data Outcome {ℓ} (A : Type ℓ) : Type ℓ where
  ok : A → Outcome A
  raised : TurnError → Outcome A

pub new : SteerManager → ActiveTurnRegistry
new steer = record { steer = steer; turns = []; tasks = [] }

pub put_task : Dict String ℕ → String → Option ℕ → Dict String ℕ
put_task tasks session none = tasks
put_task tasks session (some task) = Dict.put tasks session task

pub open_turn :
    ActiveTurnRegistry → String → String → String → Option ℕ → ℕ → ActiveTurnRegistry × ActiveTurn
open_turn g session turn request_id task now =
    let active : ActiveTurn = record {
      session_key = session;
      turn_id = turn;
      request_id = clean_key request_id;
      started_at = now;
    } in
    (
      record {
        steer = Steer.begin_turn g.steer session turn;
        turns = Dict.put g.turns session active;
        tasks = put_task g.tasks session task;
      },
      active,
    )

pub begin_turn :
    ActiveTurnRegistry
    → (session_key turn_id request_id : String) (task : Option ℕ) (now : ℕ)
    → Outcome (ActiveTurnRegistry × ActiveTurn)
begin_turn g session_key turn_id request_id task now =
    let session = clean_key session_key in
    let turn = clean_key turn_id in
    if is_empty session || is_empty turn
    then raised keys_required
    else elim (Dict.get g.turns session) [
      | some _ ↦ raised already_active
      | none ↦ ok (open_turn g session turn request_id task now)
    ]

-- `if current is not None and current.turn_id == turn: …pop(session, None)`
pub close_turn : ActiveTurnRegistry → String → String → ActiveTurnRegistry
close_turn g session turn = elim (Dict.get g.turns session) [
  | none ↦ g
  | some current ↦
      if current.turn_id == turn
      then record g { turns = Dict.remove g.turns session; tasks = Dict.remove g.tasks session }
      else g
]

pub end_turn : ActiveTurnRegistry → (session_key turn_id : String) → ActiveTurnRegistry × List ℕ
end_turn g session_key turn_id =
    let session = clean_key session_key in
    let turn = clean_key turn_id in
    let closed = close_turn g session turn in
    let (steer, expired) = Steer.end_turn closed.steer session turn in
    (record closed { steer = steer }, expired)

pub active_turn : ActiveTurnRegistry → String → Option ActiveTurn
active_turn g session_key = Dict.get g.turns (clean_key session_key)

pub add :
    ActiveTurnRegistry
    → String
    → ℕ
    → String
    → (id : String) (now : ℕ) → Outcome (ActiveTurnRegistry × ℕ)
add g session_key source text id now =
    let session = clean_key session_key in
    elim (Dict.get g.turns session) [
      | none ↦ raised no_active_turn
      | some _ ↦
          let (steer, signal) = Steer.add g.steer session source text id now in
          ok (record g { steer = steer }, signal)
    ]

pub consume :
    ActiveTurnRegistry
    → (session_key turn_id : String) (limit now : ℕ) → ActiveTurnRegistry × List ℕ
consume g session_key turn_id limit now =
    let (steer, consumed) = Steer.consume g.steer session_key turn_id limit now in
    (record g { steer = steer }, consumed)

-- The task that `cancel` asks asyncio to cancel, or none where it answers False.
pub cancel : ActiveTurnRegistry → String → (done : ℕ → Bool) → Option ℕ
cancel g session_key done = elim (Dict.get g.tasks (clean_key session_key)) [
  | none ↦ none
  | some task ↦ if done task then none else some task
]
