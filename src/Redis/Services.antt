-- ===== src/Redis/Services.antt =====
-- `RedisStateStore` of controller/state_store.py: the services' states, placements, queue and counts.
-- A count is read in ASCII digits; a negative one, which `incr` never leaves, counts as a `ValueError`.
use orchestrator_thesis.Prelude.{ℕ, String, Option, none, some, List}
use orchestrator_thesis.Address.{strip}
use orchestrator_thesis.Agent.Watcher.{signed_int}
use orchestrator_thesis.Models.{
  Time, ServiceDesiredState, ServiceObservedState, Placement, PendingDeployment, RestartCounter,
  number, minus, text,
}
use orchestrator_thesis.Redis.{
  RedisEnv, Command, value_error, service_key, ask, trying, loaded, get_entry, set_entry,
  delete_entry, list_entries,
}
use orchestrator_thesis.Effect.{pure, raise, ◌>>=◌}

module _ {R : Type 0} (env : RedisEnv R) where
  unfoldable pub set_service_desired : ServiceDesiredState → Command R (Unit {0})
  unfolding set_entry
  set_service_desired state =
      set_entry env (service_key env state.service.service_id "desired")
        (env.desired_codec.dump state) "services" state.service.service_id
        "Failed to set desired state"

  unfoldable pub get_service_desired : String → Command R (Option ServiceDesiredState)
  unfolding get_entry
  get_service_desired service_id =
      get_entry env env.desired_codec (service_key env service_id "desired")
        "Failed to get desired state"

  unfoldable pub set_service_observed : ServiceObservedState → Command R (Unit {0})
  unfolding set_entry
  set_service_observed state =
      set_entry env (service_key env state.service_id "observed") (env.observed_codec.dump state)
        "services" state.service_id "Failed to set observed state"

  unfoldable pub get_service_observed : String → Command R (Option ServiceObservedState)
  unfolding get_entry
  get_service_observed service_id =
      get_entry env env.observed_codec (service_key env service_id "observed")
        "Failed to get observed state"

  unfoldable pub set_placement : Placement → Command R (Unit {0})
  unfolding set_entry
  set_placement placement =
      set_entry env (service_key env placement.service_id "placement")
        (env.placement_codec.dump placement) "placements" placement.service_id
        "Failed to set placement"

  unfoldable pub get_placement : String → Command R (Option Placement)
  unfolding get_entry
  get_placement service_id =
      get_entry env env.placement_codec (service_key env service_id "placement")
        "Failed to get placement"

  unfoldable pub clear_placement : String → Command R (Unit {0})
  unfolding delete_entry
  clear_placement service_id =
      delete_entry env (service_key env service_id "placement") "placements" service_id
        "Failed to clear placement"

  unfoldable pub list_placements : Command R (List Placement)
  unfolding list_entries
  list_placements =
      list_entries env env.placement_codec "placements" (λ id. service_key env id "placement")
        "Failed to list placements"

  unfoldable pub set_pending_deployment : PendingDeployment → Command R (Unit {0})
  unfolding set_entry
  set_pending_deployment pending =
      set_entry env (service_key env pending.service_id "pending") (env.pending_codec.dump pending)
        "pending_services" pending.service_id "Failed to set pending deployment"

  unfoldable pub pop_pending_deployment : String → Command R (Unit {0})
  unfolding delete_entry
  pop_pending_deployment service_id =
      delete_entry env (service_key env service_id "pending") "pending_services" service_id
        "Failed to pop pending deployment"

  unfoldable pub list_pending_deployments : Command R (List PendingDeployment)
  unfolding list_entries
  list_pending_deployments =
      list_entries env env.pending_codec "pending_services" (λ id. service_key env id "pending")
        "Failed to list pending deployments"

  unfoldable pub increment_restart_counter : String → Command R ℕ
  unfolding ask trying
  increment_restart_counter service_id =
      trying "Failed to increment restart counter"
        (ask (env.redis.incr (service_key env service_id "restart_counter")))

  unfoldable pub reset_restart_counter : String → Command R (Unit {0})
  unfolding ask trying
  reset_restart_counter service_id =
      trying "Failed to reset restart counter"
        (ask (env.redis.set (service_key env service_id "restart_counter") "0"))

  -- `RestartCounter(service_id=service_id, count=count)`
  abbrev pub counter_of : String → ℕ → Time → RestartCounter
  counter_of service_id count now = record {
    service_id = service_id;
    count = count;
    updated_at = now;
  }

  -- What the text of a counter stands for: a number, or the older JSON form.
  unfoldable pub read_counter : String → Time → String → Command R RestartCounter
  unfolding loaded
  read_counter service_id now raw = elim (signed_int (strip raw)) [
    | none ↦ loaded (env.counter_codec.load raw)
    | some parsed ↦ elim parsed [
      | number count ↦ pure (counter_of service_id count now)
      | minus n ↦ raise (value_error raw)
      | text s ↦ raise (value_error raw)
    ]
  ]

  unfoldable pub get_restart_counter : Time → String → Command R RestartCounter
  unfolding ask trying read_counter
  get_restart_counter now service_id = do
    raw? ←
        trying "Failed to get restart counter"
          (ask (env.redis.get (service_key env service_id "restart_counter")))
    elim raw? [
      | none ↦ pure (counter_of service_id 0 now)
      | some raw ↦ read_counter service_id now raw
    ]

  unfoldable pub read_generation : String → Command R ℕ
  read_generation raw = elim (signed_int (strip raw)) [
    | none ↦ raise (value_error raw)
    | some parsed ↦ elim parsed [
      | number generation ↦ pure generation
      | minus n ↦ raise (value_error raw)
      | text s ↦ raise (value_error raw)
    ]
  ]

  unfoldable pub get_service_generation : String → Command R ℕ
  unfolding ask trying read_generation
  get_service_generation service_id = do
    raw? ←
        trying "Failed to get service generation"
          (ask (env.redis.get (service_key env service_id "generation")))
    elim raw? [ none ↦ pure 0 | some raw ↦ read_generation raw ]

  unfoldable pub increment_service_generation : String → Command R ℕ
  unfolding ask trying
  increment_service_generation service_id =
      trying "Failed to increment service generation"
        (ask (env.redis.incr (service_key env service_id "generation")))
