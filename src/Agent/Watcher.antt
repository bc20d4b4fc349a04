-- ===== src/Agent/Watcher.antt =====
-- agent/app/services/docker_event_watcher.py: `DockerEventWatcher`. The stream of docker's events is
-- a list, each with what the thread finds when it arrives: whether it has to stop, and the clock.
pub mod Spacing
use Prim.Native.Char.{code}
use orchestrator_thesis.Prelude.{
  ℕ, zero, suc, ◌+◌, ◌-◌, ◌*◌, String, Bool, true, false, not, ◌&&◌, ◌||◌, Option, none, some,
  or_else, List, [], ◌∷◌, ◌==◌, leb, ltb, eqb, if◌then◌else◌,
}
use orchestrator_thesis.Table.{Table, get, put}
use orchestrator_thesis.Address.{strip}
use orchestrator_thesis.Models.{Time, seconds, AgentCrashReport, Detail, number, minus}
use orchestrator_thesis.Agent.{AgentSettings}

-- The keys of an event that are read; a key that it lacks is none.
pub record DockerEvent : Type 0 where
  pub action : Option String
  pub actor_id : Option String
  pub attributes : String → Option String

-- `has_event_loop` is whether `asyncio.get_event_loop()` returns in the thread that handles events.
pub record WatcherEnv : Type 0 where
  pub settings : AgentSettings
  pub has_event_loop : Bool

-- The watcher's dict of last reports, and the reports that it has given to the reporter, the latest
-- first.
pub record Watcher : Type 0 where
  pub cooldown : Table Time
  pub sent : List AgentCrashReport

-- `int(...)` after the sign: ASCII digits, with single underscores between digits.
unfoldable pub int_digits : ℕ → Bool → String → Option ℕ
int_digits n after_digit String.[] = if after_digit then some n else none
int_digits n after_digit (String.◌∷◌ c s) =
    let value = n * 10 + (code c - 48) in
    let more = int_digits value true s in
    let rest = int_digits n false s in
    if leb 48 (code c) && leb (code c) 57
    then more
    else if eqb (code c) 95 && after_digit
    then rest
    else none

-- `-n`
abbrev pub negated : Option ℕ → Option Detail
negated none = none
negated (some zero) = some (number 0)
negated (some (suc n)) = some (minus (suc n))

abbrev pub positive : Option ℕ → Option Detail
positive none = none
positive (some n) = some (number n)

-- `int(...)` of a text without white space around it
unfoldable pub signed_int : String → Option Detail
unfolding int_digits
signed_int String.[] = none
signed_int (String.◌∷◌ c s) =
    if eqb (code c) 45
    then negated (int_digits 0 false s)
    else if eqb (code c) 43
    then positive (int_digits 0 false s)
    else positive (int_digits 0 false (String.◌∷◌ c s))

-- The exit code of an event: -1 without one that can be read.
unfoldable pub exit_code_of : Option String → Detail
unfolding signed_int
exit_code_of none = minus 1
exit_code_of (some exit_code_str) = or_else (signed_int (strip exit_code_str)) (minus 1)

abbrev pub is_zero : Detail → Bool
is_zero (number zero) = true
is_zero _ = false

-- `container_id[:12]`
unfoldable pub prefix : ℕ → String → String
prefix zero s = String.[]
prefix (suc n) String.[] = String.[]
prefix (suc n) (String.◌∷◌ c s) = String.◌∷◌ c (prefix n s)

-- `attributes.get(key) == value`, and for no value false
abbrev pub is_text : Option String → String → Bool
is_text none value = false
is_text (some text) value = text == value

-- The service of an event that is not skipped: of a managed container of this node, and not a stop
-- with exit code 0.
unfoldable pub crashed_service : AgentSettings → DockerEvent → Option String
unfolding exit_code_of
crashed_service settings event =
    let exit_code = exit_code_of (event.attributes "exitCode") in
    if not (is_text (event.attributes "orchestrator.managed") "true")
    then none
    else if not (or_else (event.attributes "orchestrator.node_id") "" == settings.node_id)
    then none
    else elim (event.attributes "orchestrator.service_id") [
      | none ↦ none
      | some service_id ↦
          if service_id == ""
          then none
          else if or_else event.action "die" == "die" && is_zero exit_code
          then none
          else some service_id
    ]

-- `elapsed < self._cooldown_seconds`
unfoldable pub is_cooling : AgentSettings → Time → Option Time → Bool
is_cooling settings now none = false
is_cooling settings now (some last_report) =
    ltb now (last_report + seconds settings.crash_report_cooldown_seconds)

abbrev pub crash_report : AgentSettings → DockerEvent → String → Time → AgentCrashReport
crash_report settings event service_id now = record {
  node_id = settings.node_id;
  service_id = service_id;
  container_id = prefix 12 (or_else event.actor_id "");
  event_type = or_else event.action "die";
  exit_code = exit_code_of (event.attributes "exitCode");
  occurred_at = now;
  service_generation = none;
}

-- The rest of `_handle_event`, from the cooldown on.
unfoldable pub report_crash : WatcherEnv → DockerEvent → Time → String → Watcher → Watcher
unfolding is_cooling
report_crash env event now service_id watcher =
    if is_cooling env.settings now (get watcher.cooldown service_id) then watcher else record {
      cooldown = put watcher.cooldown service_id now;
      sent =
          if env.has_event_loop
          then crash_report env.settings event service_id now ∷ watcher.sent
          else watcher.sent;
    }

unfoldable pub handle_event : WatcherEnv → DockerEvent → Time → Watcher → Watcher
unfolding crashed_service report_crash
handle_event env event now watcher = elim (crashed_service env.settings event) [
  | none ↦ watcher
  | some service_id ↦ report_crash env event now service_id watcher
]

-- `action in _CRASH_EVENT_ACTIONS`
abbrev pub is_crash_action : String → Bool
is_crash_action action = action == "die" || action == "oom" || action == "kill"

pub record Arrival : Type 0 where
  pub event : DockerEvent
  pub stopping : Bool
  pub now : Time

-- The loop of `_watch_events_blocking`
unfoldable pub watch_events : WatcherEnv → List Arrival → Watcher → Watcher
unfolding handle_event
watch_events env [] watcher = watcher
watch_events env (a ∷ arrivals) watcher =
    let skipped = watch_events env arrivals watcher in
    let handled = watch_events env arrivals (handle_event env a.event a.now watcher) in
    if a.stopping
    then watcher
    else if is_crash_action (or_else a.event.action "")
    then handled
    else skipped
