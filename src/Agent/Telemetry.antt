-- ===== src/Agent/Telemetry.antt =====
-- agent/app/services/telemetry.py: `ResourceSampler`, `ControllerReporter` and one round of each loop
-- of `AgentTelemetryService`. What /proc shows, parsed into numbers, and float arithmetic are
-- parameters. Memory is counted in kB, so that the floats of it are whole.
pub mod Sampling
use orchestrator_thesis.Prelude.{
  ℕ, zero, suc, ◌+◌, ◌-◌, String, Bool, true, false, not, ◌&&◌, Option, none, some, List, [], ◌∷◌,
  ◌==◌, leb, ltb, if◌then◌else◌,
}
use orchestrator_thesis.Models.{Time, Fraction, ResourceSnapshot, AgentHealthReport}
use orchestrator_thesis.Agent.{AgentSettings, AgentError}
use orchestrator_thesis.Agent.State.{record_heartbeat, record_snapshot}
use orchestrator_thesis.Agent.Adapter.{AgentEnv, AgentWorld}
use orchestrator_thesis.Agent.Health.{health_check_all}
use orchestrator_thesis.Effect.{Outcome, returned, raised, Effect, pure, modify, ◌>>=◌, ◌>>◌}

-- The floats 1.0 and 0.05, `a / b` of whole numbers, and `abs(x - y)`.
pub record Floats : Type 0 where
  pub one : Fraction
  pub snapshot_change_threshold : Fraction
  pub ratio : ℕ → ℕ → Fraction
  pub distance : Fraction → Fraction → Fraction

-- The numbers of the first line of /proc/stat, and the name and number of each line of /proc/meminfo.
pub record Proc : Type 0 where
  pub stat : List ℕ
  pub meminfo : List (String × ℕ)

-- `AgentHeartbeatReport` of controller/models.py
pub record AgentHeartbeatReport : Type 0 where
  pub node_id : String
  pub agent_url : String
  pub node_address : String
  pub sent_at : Time

-- A request that the reporter makes of the controller; `_post` passes over its failure.
pub data Post : Type 0 where
  heartbeat : AgentHeartbeatReport → Post
  resource_snapshot : String → ResourceSnapshot → Post
  health_report : AgentHealthReport → Post

pub record Telemetry (D : Type 0) : Type 0 where
  pub agent : AgentWorld D
  pub previous_cpu : Option (ℕ × ℕ)
  pub last_sent_snapshot : Option (Fraction × Fraction)
  -- The latest first.
  pub posts : List Post

abbrev pub sum : List ℕ → ℕ
sum [] = 0
sum (x ∷ xs) = x + sum xs

-- `values[i] if len(values) > i else 0`
abbrev pub value_at : ℕ → List ℕ → ℕ
value_at i [] = 0
value_at zero (x ∷ xs) = x
value_at (suc i) (x ∷ xs) = value_at i xs

-- `_read_proc_stat`
unfoldable pub read_proc_stat : List ℕ → ℕ × ℕ
read_proc_stat values = (sum values, value_at 3 values)

-- The loop of `_read_proc_meminfo`
unfoldable pub scan_meminfo : List (String × ℕ) → ℕ × ℕ → ℕ × ℕ
scan_meminfo [] found = found
scan_meminfo (line ∷ lines) found = scan_meminfo lines (
    if line.0 == "MemTotal:"
    then (line.1, found.1)
    else if line.0 == "MemAvailable:"
    then (found.0, line.1)
    else found)

unfoldable pub read_proc_meminfo : List (String × ℕ) → ℕ × ℕ
unfolding scan_meminfo
read_proc_meminfo lines =
    let (mem_total, mem_available) = scan_meminfo lines (0, 0) in
    if leb mem_total 0 then (0, 0) else (mem_total, mem_available)

-- `min(1.0, x)`
abbrev pub at_most : Fraction → Fraction → Fraction
at_most one x = if leb x one then x else one

-- The utilisation after two readings. A negative quotient is raised to 0.0.
unfoldable pub cpu_between : Floats → ℕ × ℕ → ℕ × ℕ → Fraction
cpu_between floats (previous_total, previous_idle) (total, idle) =
    if leb total previous_total
    then 0
    else if ltb (total - previous_total + previous_idle) idle
    then 0
    else at_most floats.one
        (floats.ratio (total - previous_total + previous_idle - idle) (total - previous_total))

unfoldable pub sample_cpu_utilization : Floats → List ℕ → Option (ℕ × ℕ) → Fraction
unfolding read_proc_stat cpu_between
sample_cpu_utilization floats values none = 0
sample_cpu_utilization floats values (some previous) =
    cpu_between floats previous (read_proc_stat values)

unfoldable pub sample_memory_utilization : Floats → List (String × ℕ) → Fraction
unfolding read_proc_meminfo
sample_memory_utilization floats lines =
    let (mem_total, mem_available) = read_proc_meminfo lines in
    if leb mem_total 0
    then 0
    else if ltb mem_total mem_available
    then 0
    else at_most floats.one (floats.ratio (mem_total - mem_available) mem_total)

unfoldable pub sample : Floats → Proc → Time → Option (ℕ × ℕ) → ResourceSnapshot
unfolding sample_cpu_utilization sample_memory_utilization
sample floats proc now previous_cpu = record {
  cpu_utilization = sample_cpu_utilization floats proc.stat previous_cpu;
  memory_utilization = sample_memory_utilization floats proc.meminfo;
  captured_at = now;
}

-- Whether a snapshot is near the one that was sent.
abbrev pub is_near : Floats → ResourceSnapshot → Fraction × Fraction → Bool
is_near floats snapshot (cpu, memory) =
    ltb (floats.distance snapshot.cpu_utilization cpu) floats.snapshot_change_threshold
    && ltb (floats.distance snapshot.memory_utilization memory) floats.snapshot_change_threshold

unfoldable pub should_send : Floats → ResourceSnapshot → Option (Fraction × Fraction) → Bool
should_send floats snapshot none = true
should_send floats snapshot (some sent) = not (is_near floats snapshot sent)

module _ {D : Type 0} where
  -- `_post` of the reporter
  unfoldable pub post : Post → Telemetry D → Telemetry D
  post p t = record t { posts = p ∷ t.posts }

  -- A round of `_resource_snapshot_loop`
  unfoldable pub snapshot_round : AgentEnv D → Floats → Proc → Telemetry D → Telemetry D
  unfolding sample should_send post read_proc_stat
  snapshot_round env floats proc t =
      let snapshot = sample floats proc env.now t.previous_cpu in
      let sampled : Telemetry D = record t {
        previous_cpu = some (read_proc_stat proc.stat);
        agent = record t.agent { state = record_snapshot snapshot t.agent.state };
      } in
      if should_send floats snapshot t.last_sent_snapshot
      then record (post (resource_snapshot env.settings.node_id snapshot) sampled) {
        last_sent_snapshot = some (snapshot.cpu_utilization, snapshot.memory_utilization);
      }
      else sampled

  -- A round of `_heartbeat_loop`, `send_heartbeat` included
  unfoldable pub heartbeat_round : AgentEnv D → Telemetry D → Telemetry D
  unfolding post
  heartbeat_round env t =
      post
        (heartbeat (record {
          node_id = env.settings.node_id;
          agent_url = env.settings.agent_public_url;
          node_address = env.settings.advertised_host;
          sent_at = env.now;
        }))
        (record t { agent = record t.agent { state = record_heartbeat env.now t.agent.state } })

  unfoldable pub post_reports : List AgentHealthReport → Telemetry D → Telemetry D
  unfolding post
  post_reports [] t = t
  post_reports (report ∷ reports) t = post_reports reports (post (health_report report) t)

  -- A round of `_health_loop`. An exception ends the loop.
  unfoldable pub health_round :
      AgentEnv D → Telemetry D → Outcome AgentError (Unit {0}) × Telemetry D
  unfolding post_reports
  health_round env t =
      let (r, agent) = health_check_all env t.agent in
      elim r [
        | returned reports ↦ (returned tt, post_reports reports (record t { agent = agent }))
        | raised e ↦ (raised e, record t { agent = agent })
      ]
