-- ===== src/Agent/Containers.antt =====
-- What agent/app/adapters/docker_adapter.py reads off the containers that the docker SDK shows, which
-- is a parameter, and off its errors. Host ports are ASCII texts.
use Prim.Native.Char.{code}
use orchestrator_thesis.Prelude.{
  ℕ, String, Bool, true, false, not, ◌&&◌, ◌||◌, Option, none, some, List, [], ◌∷◌, ◌==◌, eqb, ltb,
  leb, if◌then◌else◌,
}
use orchestrator_thesis.Decimal.{◌<>◌, show}
use orchestrator_thesis.Address.{lower_code}
use orchestrator_thesis.Models.{ServiceSpec}
use orchestrator_thesis.Agent.{AgentError, docker_adapter_error}
use orchestrator_thesis.Agent.Watcher.{is_text, int_digits}

-- `networks` are the addresses by network, `ports` the host ports of the bindings by container port,
-- with none for a binding without one.
pub record Container : Type 0 where
  pub id : Option String
  pub labels : String → Option String
  pub status : String
  pub networks : List (String × Option String)
  pub ports : List (String × List (Option String))

-- The labels that the loop of `_find_container` asks for
abbrev pub is_owned : String → String → Container → Bool
is_owned node_id service_id container =
    is_text (container.labels "orchestrator.managed") "true"
    && is_text (container.labels "orchestrator.service_id") service_id
    && is_text (container.labels "orchestrator.node_id") node_id

unfoldable pub first_owned : String → String → List Container → Option Container
first_owned node_id service_id [] = none
first_owned node_id service_id (container ∷ containers) =
    let rest = first_owned node_id service_id containers in
    if is_owned node_id service_id container then some container else rest

-- The loop of `_find_container_by_name`
unfoldable pub first_foreign : String → List Container → Option Container
first_foreign node_id [] = none
first_foreign node_id (container ∷ containers) =
    let rest = first_foreign node_id containers in
    if not (is_text (container.labels "orchestrator.managed") "true")
    then some container
    else if not (is_text (container.labels "orchestrator.node_id") node_id)
    then some container
    else rest

-- `if ip_address: return str(ip_address)`, and otherwise what comes after
abbrev pub or_address : Option String → Option String → Option String
or_address none later = later
or_address (some ip_address) later = if ip_address == "" then later else some ip_address

-- The loop over `networks.values()`
unfoldable pub first_address : List (String × Option String) → Option String
first_address [] = none
first_address (network ∷ networks) = or_address network.1 (first_address networks)

-- `networks[network_name].get("IPAddress")`, if the network is there
unfoldable pub address_on : String → List (String × Option String) → Option String
address_on network_name [] = none
address_on network_name (network ∷ networks) =
    let rest = address_on network_name networks in
    if network.0 == network_name then network.1 else rest

unfoldable pub is_digits : String → Bool
is_digits String.[] = true
is_digits (String.◌∷◌ c s) = leb 48 (code c) && leb (code c) 57 && is_digits s

-- `host_port and host_port.isdigit()`, then `int(host_port)`
unfoldable pub host_port_of : Option String → Option ℕ
unfolding is_digits int_digits
host_port_of none = none
host_port_of (some host_port) = if is_digits host_port then int_digits 0 false host_port else none

-- The host port of the first binding
unfoldable pub bound_port : List (Option String) → Option ℕ
unfolding host_port_of
bound_port [] = none
bound_port (host_port ∷ bindings) = host_port_of host_port

unfoldable pub first_port : List (String × List (Option String)) → Option ℕ
unfolding bound_port
first_port [] = none
first_port (bindings ∷ ports) = elim (bound_port bindings.1) [
  | none ↦ first_port ports
  | some port ↦ some port
]

-- `ports.get(key)`
unfoldable pub bindings_of : String → List (String × List (Option String)) → List (Option String)
bindings_of key [] = []
bindings_of key (bindings ∷ ports) =
    let rest = bindings_of key ports in if bindings.0 == key then bindings.1 else rest

-- `_published_port`, after the reload
unfoldable pub port_among : ℕ → List (String × List (Option String)) → Option ℕ
unfolding first_port bindings_of
port_among internal_port ports =
    if ltb 0 internal_port
    then elim (bound_port (bindings_of (show internal_port <> "/tcp") ports)) [
      | some port ↦ some port
      | none ↦ first_port ports
    ]
    else first_port ports

-- Whether a text, in lower case, starts with one, or contains it.
unfoldable pub lower_starts : String → String → Bool
unfolding lower_code
lower_starts String.[] text = true
lower_starts (String.◌∷◌ a word) String.[] = false
lower_starts (String.◌∷◌ a word) (String.◌∷◌ c text) =
    eqb (lower_code (code c)) (code a) && lower_starts word text

unfoldable pub lower_contains : String → String → Bool
unfolding lower_starts
lower_contains word String.[] = lower_starts word String.[]
lower_contains word (String.◌∷◌ c text) =
    lower_starts word (String.◌∷◌ c text) || lower_contains word text

abbrev pub is_port_conflict : String → String → Bool
is_port_conflict message explanation =
    let combined = message <> " " <> explanation in
    lower_contains "port is already allocated" combined
    || lower_contains "address already in use" combined

-- What a failed `containers.run` is raised as
unfoldable pub deploy_error : ServiceSpec → String → String → AgentError
unfolding lower_contains
deploy_error service message explanation =
    if is_port_conflict message explanation
    then docker_adapter_error (
        "Published port conflict for service="
        <> service.service_id
        <> " on port="
        <> elim service.published_port [ none ↦ "None" | some port ↦ show port ])
    else docker_adapter_error ("Failed to deploy service=" <> service.service_id)
