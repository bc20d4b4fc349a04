-- ===== src/Store/Heartbeat.antt =====
-- What a heartbeat leaves of a node.
use orchestrator_thesis.Prelude.{
  String, ◌≡◌, ◌≢◌, refl, inl, inr, Option, none, some, arith, Option-cases, eq_iff, or_else, ap,
}
use orchestrator_thesis.Table.{get}
use orchestrator_thesis.Models.{Time, NodeState, NodeStatus}
use orchestrator_thesis.Address.{normalize_node_address}
use orchestrator_thesis.Address.Normal.{normalize_stable, unknown_none}
use orchestrator_thesis.Store.{Store, upsert_node_heartbeat}

-- The address of a node as the store keeps it: normal, or the word for none.
abbrev pub settled : Option String → String
settled address = or_else (normalize_node_address address) "unknown"

settled-settled : (address : Option String) → settled (some (settled address)) ≡ settled address
settled-settled address = elim (Option-cases (normalize_node_address address)) [
  | inl e ↦ rw (e, unknown_none) refl
  | inr (a, e) ↦ rw (e, (normalize_stable address a e).0) refl
]

-- What a heartbeat leaves of a node, `before` being what was stored of it.
pub record IsBeating (agent_url : String) (address : Option String) (at : Time)
    (before : Option NodeState) (n : NodeState) : Type 0 where
  pub up : n.status ≡ NodeStatus.healthy
  pub url : n.agent_url ≡ agent_url
  pub seen : n.last_heartbeat_at ≡ at
  pub normal : settled (some n.node_address) ≡ n.node_address
  pub known : (a : String) → normalize_node_address address ≡ some a → n.node_address ≡ a
  pub kept :
      (m : NodeState)
      → before ≡ some m
      → (n.last_resource_snapshot ≡ m.last_resource_snapshot)
        × (normalize_node_address address ≡ none → n.node_address ≡ settled (some m.node_address))

-- The node that a heartbeat stores, new or known before.
abbrev first_seen : String → String → Option String → Time → NodeState
first_seen id agent_url address at = record {
  node_id = id;
  agent_url = agent_url;
  node_address = settled address;
  status = NodeStatus.healthy;
  last_heartbeat_at = at;
  last_resource_snapshot = none;
}

abbrev seen_again : NodeState → String → Option String → Time → NodeState
seen_again m agent_url address at = record m {
  agent_url = agent_url;
  node_address = or_else (normalize_node_address address) (settled (some m.node_address));
  status = NodeStatus.healthy;
  last_heartbeat_at = at;
}

seen_again-normal :
    (m : NodeState) (address : Option String)
    → settled (some (or_else (normalize_node_address address) (settled (some m.node_address))))
      ≡ or_else (normalize_node_address address) (settled (some m.node_address))
seen_again-normal m address = elim (Option-cases (normalize_node_address address)) [
  | inl e ↦ rw e (settled-settled (some m.node_address))
  | inr (a, e) ↦ rw (e, (normalize_stable address a e).0) refl
]

first_seen-IsBeating :
    (id agent_url : String) (address : Option String) (at : Time)
    → IsBeating agent_url address at none (first_seen id agent_url address at)
first_seen-IsBeating id agent_url address at = record {
  up = refl;
  url = refl;
  seen = refl;
  normal = settled-settled address;
  known = λ a e. rw e refl;
  kept = λ m e. absurd (ground arith);
}

seen_again-IsBeating :
    (m : NodeState) (agent_url : String) (address : Option String) (at : Time)
    → IsBeating agent_url address at (some m) (seen_again m agent_url address at)
seen_again-IsBeating m agent_url address at = record {
  up = refl;
  url = refl;
  seen = refl;
  normal = seen_again-normal m address;
  known = λ a e. rw e refl;
  kept = λ m' e.
      let same : m ≡ m' = ap (λ o. or_else o m) e in
      (
        ap (λ (n : NodeState). n.last_resource_snapshot) same,
        λ none_given. rw none_given (ap (λ (n : NodeState). settled (some n.node_address)) same),
      );
}

-- After a heartbeat the node is stored as healthy, with the agent's URL and the time given, and an
-- address that normalising again does not change: the one given if it is valid, otherwise the one
-- known before. Its last snapshot is kept, and no other node changes.
pub upsert_node_heartbeat-IsBeating :
    (id other agent_url : String) (address : Option String) (at : Time) (s : Store)
    → id ≢ other
    → ((n : NodeState) × (get (upsert_node_heartbeat id agent_url address at s).nodes id ≡ some n)
        × IsBeating agent_url address at (get s.nodes id) n)
      × (get (upsert_node_heartbeat id agent_url address at s).nodes other ≡ get s.nodes other)
unfolding upsert_node_heartbeat
upsert_node_heartbeat-IsBeating id other agent_url address at s differ =
    elim (Option-cases (get s.nodes id)) [
      | inl e ↦
          rw (upsert_node_heartbeat, e)
            (
              (
                first_seen id agent_url address at,
                ground (arith, eq_iff id id),
                first_seen-IsBeating id agent_url address at,
              ),
              ground (arith, eq_iff id other),
            )
      | inr (m, e) ↦
          rw (upsert_node_heartbeat, e)
            (
              (
                seen_again m agent_url address at,
                ground (arith, eq_iff id id),
                seen_again-IsBeating m agent_url address at,
              ),
              ground (arith, eq_iff id other),
            )
    ]
