-- ===== src/Lib.antt =====
-- Verification library of luna-agent, a personal agent that talks over several platforms, runs
-- tools for a language model and loads plugins.
--
-- The parts that are modelled, and where (paths from the repository's root):
--   Steer, Steer/Registry: src/luna_agent/conversation/steer.py. A session has at most one active
--     turn (ActiveTurnRegistry); texts that a user sends meanwhile queue up in a SteerManager until
--     the turn consumes them or ends. Signals are mutable objects shared by the queues and the
--     history, so the model has a heap of them. Steer/Invariant holds the invariant of the manager,
--     Steer/Kept its operations under it, Steer/Scan, Steer/Session and Steer/Evict the loops over a
--     queue, Steer/Consume what consume and end_turn promise, Steer/Trace any history of calls;
--     Steer/Registry/Turns, Ending and History do the same for the registry.
--   Capability: src/luna_agent/plugins/runtime. Plugin generations offer bindings (Binding, of
--     models.py), a catalog collects them (Catalog, of catalog.py), the builder makes a snapshot of
--     routes (Snapshot, of snapshot.py), and the store swaps snapshots while turns hold leases of
--     older ones (Store, of snapshot.py). The router (Router, of router.py) owns the payloads of the
--     bindings, builds and publishes snapshots, rolls back where that fails, and drops payloads when
--     a snapshot is retired. The children of Store and Router hold their invariants and histories.
--   Security: src/luna_agent/security. Profiles of filesystem rules and modes (Profile, of models.py
--     and modes.py), grants that end by themselves (Grants, of session.py), the decision on a tool
--     call with the grants that an approval gives (Evaluator, of evaluator.py), and the states of all
--     sessions (Sessions, of session.py).
--   Delivery: src/luna_agent/delivery with its queries in src/luna_agent/db/database.py. Messages wait
--     in a table, a claim takes one, its result settles it or sets the time of the next attempt, and
--     a restart reopens what was being sent (Delivery, of outbox.py; Delivery/History holds the steps,
--     Delivery/Attempts and Delivery/Settled what they keep, Delivery/Worker
--     a round of the worker, Delivery/Tasks callers at work side by side). A message becomes numbered operations
--     that its platform supports (Planner, of planner.py), each has a row of its own (Parts, of
--     outbox.py), is sent by the platform's adapter (Send, of service.py), and a pass tries them in
--     order, passing over those that earlier passes settled (Service, of service.py, whose children
--     hold what one attempt, one pass and any history keep).
--   Conversation: src/luna_agent/conversation. Requests with an id that may be sent again are kept in
--     a table (Table, of db/database.py) by the ledger (Ledger, of ledger.py), which tells the caller
--     whether the request is new, under way, to be resumed, answered already or a conflict. Submission
--     (of submission.py) has the requests and outcomes, Message (of models/messages.py) the messages
--     and how they are stored.
--     The coordinator (Coordinator, of coordinator.py) queues the requests of each session for a worker
--     of its own: Submit is how a request comes in, Execute how one is carried out and its outcome
--     stored and delivered, Serve the workers, tasks and close; Queue and Fifo are about the order,
--     Drain about the end of a worker, Remember about requests that come twice, Replayed about what
--     the ledger tells of them after a restart.
--   Gateway/Chain: src/luna_agent/gateway/compression_chain.py. When a session is compressed into a new
--     one, a link is kept; Walk is about following the links, Change about adding and removing them.
--   Prelude: helpers; Dict is Python's dict with its order, Sort its stable sort, Text its strip.
--
-- How code became definitions: a method takes the state and returns the new one; an exception is a
-- value of a result type; a lock held over a method makes it one step, and tasks that run later are
-- steps of their own, so a history is any list of steps. Times are numbers of ticks given by a clock
-- argument, ids of uuid4 are arguments, opaque Python objects (sources, payloads, tasks) are handles.
-- The loops are recursion on the lists that they consume; those along the links of sessions have fuel
-- for one turn more than there are links, which is enough since a session seen before ends them;
-- the loop of a worker has fuel for one round for each item of its queue. The resolution of
-- paths by pathlib, `json`, hashes, `str.lower` and the answers of platforms are parameters. So are
-- the callbacks of the capability router, and whether its thread runs an event loop: where none runs,
-- a publication retires at once, and what that raises reaches its caller.
--
-- Not modelled: fingerprints of snapshots (hashes that are shown), the views of state for display,
-- the texts of messages and errors, the normalisation of settings, and the other parts of the
-- program: the timer of the worker that retries deliveries, platforms,
-- language model clients, memory, plugin processes, the user interfaces, the agent loop
-- and its tools.
mod Prelude
pub mod Capability
pub mod Conversation
pub mod Delivery
pub mod Gateway
pub mod Security
pub mod Steer
