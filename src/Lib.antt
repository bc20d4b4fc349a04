-- ===== src/Lib.antt =====
-- Verification of mini-orchestrator, a controller that places services on nodes, watches them and
-- heals them, and the agents that run them in docker. This library models the controller's decisions
-- and its shared state, and the agent.
--
-- The parts and how they interact. Requests and reports reach `ServiceManager` and
-- `SelfHealingManager` through the API; `Reconciler` runs on a timer and calls both. All three keep
-- what they know in one state store, ask the nodes' agents to deploy, stop and restart containers,
-- take the scheduler's choice of a node, and tell the ingress manager when a service has moved. A
-- method of either manager holds the lock of its service, so that it is one action here. An agent has a
-- workload manager, which the API calls and which asks docker by an adapter and keeps what it knows in
-- the agent's state store; telemetry loops that report to the controller; and a watcher of docker's
-- events.
--
-- The files, with the code that they model:
--   Models       controller/models.py: the records and enums
--   Table        Python's dict with text keys
--   Names        comparison of texts and the stable sort of `sorted(..., key=...)`
--   Decimal      the decimal text of a number, and concatenation
--   Scheduler    controller/scheduler.py: `choose_node_least_load`
--   Address      `_normalize_node_address` of controller/state_store.py and of
--                controller/ingress_manager.py, `_first_valid_node_address` of the latter
--   Store        controller/state_store.py: `InMemoryStateStore`, one pure function for each method
--   Redis        controller/state_store.py: `RedisStateStore`, in Nodes, Services and Logs; in Refinement
--                a client of both stores, in Keys how their keys keep entries apart
--   World        what an action runs in: the store, the dicts of `SelfHealingManager`, the upstream
--                file, the requests made, exceptions, and the surroundings of one call
--   Ingress      controller/ingress_manager.py: `IngressManager.sync_service` and what it calls
--   ServiceManager   controller/service_manager.py: `deploy`, and in Commands the other methods
--   SelfHealing  controller/self_healing.py: the two report handlers, and below them Recovery
--                (restart), Reschedule (after used-up restarts) and Unreachable (from a lost node), and in
--                Target where the last two leave a service
--   Reconciler   controller/reconciler.py: `run_once`
--   Controller   the steps of all parts, in any order, and the states that they reach
--   Coherence    the invariant of the store, and a logic for the actions that keep it
--   Outcome      what an action comes to from one world, and results of the managers in this form
--   Growth       generations over the steps of the controller
--   Effect       methods that change a state and may raise; in Keeps those that keep an invariant, in
--                Ends what one comes to
--   Agent        agent/app/core/models.py and config.py: the records and settings
--   Agent/State      agent/app/core/state.py: `AgentStateStore`
--   Agent/Adapter    the protocol `DockerAdapter`, and what a method of the workload manager runs in
--   Agent/Ports, Agent/Workloads, Agent/Health   agent/app/services/workload_manager.py: the choice of
--                a published port, the commands, and the health checks
--   Agent/Docker, Agent/Containers, Agent/Naming   agent/app/adapters/docker_adapter.py:
--                `DockerSdkAdapter`, what it reads off a container, and the names of containers
--   Agent/Watcher    agent/app/services/docker_event_watcher.py
--   Agent/Telemetry  agent/app/services/telemetry.py: the sampler and a round of each loop
--   Agent/Api    agent/app/api/__init__.py: the routes
--   Agent/Invariant, Agent/Life   what holds of an agent's records, and the states it reaches
--   Tests        one service on one or two nodes, and the theorems applied there
-- The functions carry the names of the code. A body with early returns is cut at them: `deploy_on` is
-- the part of `_deploy_unlocked` from the scheduler's choice on, `with_current` the guards that both
-- report handlers share, and so on; the comment above each says which part it is.
--
-- Choices. A time is a whole number of microseconds. A utilisation is a count of the smallest float,
-- which makes comparisons exact; the rounding `1.0 - x` is the parameter `one_minus` of the scheduler.
-- An `Env` holds what is not the controller's code: the settings, one clock reading for a call, the
-- agents' answers as functions of the requests so far, the answer of nginx, the errors of the upstream
-- file's operations, the ids of uuid4, and the position `write_fault` at which a store write inside a
-- rolled-back group fails, if one does. A request to an agent comes to an answer, to an
-- `AgentClientError`, which its callers catch, or to another exception, such as the `httpx.InvalidURL`
-- of a malformed URL, which they do not; a health request of the agent likewise. Surroundings are
-- orderly, `IsOrderly`, where no such exception and no error of a file occurs. An
-- exception is the result `raised`, and the state in which it is raised is kept. The ingress reads an
-- agent's state at most 20 times, `max_attempts`, as the code does. The decimal text of a number is
-- computed on fuel, one more than the number, of which each digit takes one. The agent tries a health
-- check as often as its settings say, and as many ports as its range has. Nothing else needs a bound:
-- the loops run over lists that are read before them, and the stream of docker's events is a list.
-- For the agent, parameters are the docker SDK, crc32, the answers to health requests, /proc with its
-- numbers parsed, float division and distance, and whether a thread has an event loop. For the Redis
-- store, they are the commands of Redis, which may fail, and the JSON forms of the models.
-- The managers, the reconciler and the steps of Controller run on the in-memory store, while the
-- program's main.py gives them the Redis store; Redis/Refinement relates the two for the entries of
-- services.
--
-- Not modelled: the HTTP client of the agents; the controller's API routes, the start-up, the timers
-- and the logging; the validation of requests by pydantic; the sample application. Methods that hold
-- the locks of two different services may interleave at their requests, and so may the methods of an
-- agent, which hold no lock; here they run one after the other. Store writes outside the rolled-back
-- groups do not fail, apart from those of the Redis store by itself. Numbers in texts from docker and
-- Redis are read in ASCII digits. The bound of the logs is at least 1, as the settings make it.
pub mod Prelude
pub mod Table
pub mod Names
pub mod Models
pub mod Scheduler
pub mod Address
pub mod Store
pub mod Decimal
pub mod World
pub mod Ingress
pub mod ServiceManager
pub mod SelfHealing
pub mod Coherence
pub mod Reconciler
pub mod Outcome
pub mod Controller
pub mod Growth
pub mod Effect
pub mod Redis
pub mod Agent
pub mod Tests
