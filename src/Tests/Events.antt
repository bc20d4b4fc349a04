-- ===== src/Tests/Events.antt =====
-- The theorems on docker's side of the agent, its events and its samples, applied at "web".
use Prim.Native.Nat.{◌/◌}
use orchestrator_thesis.Prelude.{
  ◌-◌, ◌*◌, ◌≤◌, String, Bool, true, false, ◌&&◌, ◌≡◌, refl, Option, none, some, List, [], ◌∷◌,
  eq_iff, All, ◌==◌, ltb, if◌then◌else◌,
}
use orchestrator_thesis.Decimal.{◌<>◌}
use orchestrator_thesis.Address.{strip, rstrip, lstrip, is_space}
use orchestrator_thesis.Table.{empty}
use orchestrator_thesis.Models.{Time, seconds}
use orchestrator_thesis.Agent.{api_error}
use orchestrator_thesis.Agent.Naming.{safe_container_name}
use orchestrator_thesis.Agent.Naming.Safe.{AllChars, is_safe_code, safe_container_name-AllChars}
use orchestrator_thesis.Agent.Docker.{
  DockerEnv, adapter_of, run_container, find_container, find_container_by_name,
}
use orchestrator_thesis.Agent.Containers.{Container, is_owned, lower_contains}
use orchestrator_thesis.Agent.Docker.Ownership.{IsRespected, adapter_of-Keeps}
use orchestrator_thesis.Agent.Api.{deploy_service, http_exception}
use orchestrator_thesis.Agent.Api.Status.{deploy_service-conflict}
use orchestrator_thesis.Agent.Watcher.{WatcherEnv, Arrival, crash_report, watch_events, is_text}
use orchestrator_thesis.Agent.Watcher.Spacing.{Spaced, watch_events-Spaced}
use orchestrator_thesis.Agent.Telemetry.{Floats, Proc, Telemetry, sample, snapshot_round}
use orchestrator_thesis.Agent.Telemetry.Sampling.{
  IsUpToDate, sample-bounded, snapshot_round-IsUpToDate,
}
use orchestrator_thesis.Effect.{returned, raised, ◌>>=◌}
use orchestrator_thesis.Effect.Keeps.{Keeps}
use orchestrator_thesis.Tests.{web}
use orchestrator_thesis.Tests.Agents.{
  web_labels, sdk, docker_env, agent_settings, agent_env, agent_world, changed,
}

safe_container_name-AllChars_example :
    (rest : String) × (safe_container_name "Node 1" "shop/web" ≡ "orchestrator-" <> rest)
    × AllChars is_safe_code rest
safe_container_name-AllChars_example = safe_container_name-AllChars "Node 1" "shop/web"

-- Two services may share a container's name.
shared_name : safe_container_name "n1" "shop/web" ≡ safe_container_name "n1" "shop-web"
unfolding safe_container_name
shared_name = refl

-- Only containers of "web" have been changed.
abbrev OnlyWeb : List String → Type 0
OnlyWeb = All (λ id. id ≡ "web")

label_of :
    (o : Option String) (d : List String)
    → is_text o "web" ≡ true
    → OnlyWeb d
    → OnlyWeb (elim o [ none ↦ "" ∷ d | some id ↦ id ∷ d ])
label_of none d h k = absurd (cc h)
label_of (some id) d h k = ((eq_iff id "web").0 h, k)

second-true : (a b c : Bool) → (a && b && c) ≡ true → b ≡ true
second-true true true c h = refl
second-true true false c h = absurd (cc h)
second-true false b c h = absurd (cc h)

changed-OnlyWeb :
    (c : Container) (d : List String)
    → is_owned "n1" "web" c ≡ true
    → OnlyWeb d
    → OnlyWeb (changed c d)
changed-OnlyWeb c d owned h =
    label_of (c.labels "orchestrator.service_id") d
      (second-true _ _ (is_text (c.labels "orchestrator.node_id") "n1") owned) h

web-IsRespected : IsRespected OnlyWeb docker_env "web"
web-IsRespected = record {
  lists = λ filter. record { at = λ d h. (h, tt) };
  shows = λ c. record { at = λ d h. (h, refl) };
  runs = λ request node same. record { at = λ d h. (h, tt) };
  removes = λ c owned. record { at = λ d h. (changed-OnlyWeb c d owned h, tt) };
  stops = λ c owned. record { at = λ d h. (changed-OnlyWeb c d owned h, tt) };
  restarts = λ c owned. record { at = λ d h. (changed-OnlyWeb c d owned h, tt) };
}

adapter_of-Keeps_example :
    Keeps OnlyWeb ((adapter_of docker_env).deploy web) (λ _. Unit)
    × Keeps OnlyWeb ((adapter_of docker_env).stop "web") (λ _. Unit)
    × Keeps OnlyWeb ((adapter_of docker_env).restart "web") (λ _. Unit)
    × Keeps OnlyWeb ((adapter_of docker_env).inspect "web") (λ _. Unit)
adapter_of-Keeps_example = adapter_of-Keeps OnlyWeb docker_env "web" web-IsRespected web refl

-- Docker without a container.
abbrev bare_docker : DockerEnv (List String)
bare_docker = record docker_env { sdk = record sdk { list = λ filter d. (returned [], d) } }

not_there : find_container bare_docker "web" [] ≡ (returned none, [])
unfolding find_container ◌>>=◌
not_there = refl

not_named :
    find_container_by_name bare_docker (safe_container_name "n1" "web") [] ≡ (returned none, [])
unfolding find_container_by_name ◌>>=◌
not_named = refl

refused :
    run_container bare_docker web []
    ≡ (raised (api_error "500 Server Error" "Port is already allocated"), [])
unfolding run_container ◌>>=◌
refused = refl

deploy_service-conflict_example :
    (detail : String) × (deploy_service
        (record agent_env { adapter = adapter_of bare_docker })
        web
        agent_world
      ≡ (http_exception 409 detail, agent_world))
unfolding lower_contains
deploy_service-conflict_example =
    deploy_service-conflict bare_docker web "500 Server Error" "Port is already allocated" agent_env
      agent_world 18_080 [] [] [] [] refl not_there not_there not_named refused refl

-- Two crashes of "web", two seconds apart, and one four seconds later.
abbrev crash_at : Time → Arrival
crash_at now = record {
  event = record {
    action = some "die";
    actor_id = some "c1";
    attributes = λ key. if key == "exitCode" then some "137" else web_labels key;
  };
  stopping = false;
  now = now;
}

abbrev crashes : List Arrival
crashes = crash_at 90_000_000 ∷ crash_at 92_000_000 ∷ crash_at 96_000_000 ∷ []

abbrev heard : WatcherEnv
heard = record { settings = agent_settings; has_event_loop = true }

two_reports :
    (watch_events heard crashes (record { cooldown = empty; sent = [] })).sent
    ≡ crash_report agent_settings (crash_at 96_000_000).event "web" 96_000_000
      ∷ crash_report agent_settings (crash_at 90_000_000).event "web" 90_000_000
      ∷ []
unfolding watch_events strip rstrip lstrip is_space
two_reports = refl

watch_events-Spaced_example :
    Spaced (seconds 3) (watch_events heard crashes (record { cooldown = empty; sent = [] })).sent
watch_events-Spaced_example = watch_events-Spaced heard crashes

-- Thousandths instead of the smallest floats.
abbrev floats : Floats
floats = record {
  one = 1000;
  snapshot_change_threshold = 50;
  ratio = λ a b. a * 1000 / b;
  distance = λ a b. if ltb a b then b - a else a - b;
}

abbrev proc : Proc
proc = record {
  stat = 100 ∷ 0 ∷ 50 ∷ 350 ∷ [];
  meminfo = ("MemTotal:", 8000) ∷ ("MemFree:", 1000) ∷ ("MemAvailable:", 2000) ∷ [];
}

abbrev idle : Telemetry (List String)
idle = record {
  agent = agent_world;
  previous_cpu = some (400, 300);
  last_sent_snapshot = some (480, 700);
  posts = [];
}

-- Half of the time since the last reading was idle, and three quarters of the memory are in use.
half_busy :
    sample floats proc 90_000_000 (some (400, 300))
    ≡ record { cpu_utilization = 500; memory_utilization = 750; captured_at = 90_000_000 }
unfolding sample
half_busy = refl

sample-bounded_example :
    let snapshot = sample floats proc 90_000_000 (some (400, 300)) in
    (snapshot.cpu_utilization ≤ 1000) × (snapshot.memory_utilization ≤ 1000)
sample-bounded_example = sample-bounded floats proc 90_000_000 (some (400, 300))

snapshot_round-IsUpToDate_example :
    IsUpToDate agent_env floats idle (snapshot_round agent_env floats proc idle)
snapshot_round-IsUpToDate_example = snapshot_round-IsUpToDate agent_env floats proc idle
