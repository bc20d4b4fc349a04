-- ===== src/Scheduler/Choice.antt =====
-- What `choose_node_least_load` promises, against a description of eligibility and of the order of
-- loads that does not mention the code's loop.
use orchestrator_thesis.Prelude.{
  ◌≤◌, ◌<◌, max, String, ◌≡◌, refl, ap, subst, ◌⊎◌, inl, inr, ◌↔◌, true, none, some, List, [], ◌∷◌,
  arith, All, Any, All-map, Any-map, Bool-cases, Option-cases,
}
use orchestrator_thesis.Names.{name_le}
use orchestrator_thesis.Models.{
  Fraction, NodeState, NodeStatus, ServiceSpec, ResourceSnapshot, is_healthy,
}
use orchestrator_thesis.Scheduler.{
  Candidate, build_candidate, key_le, select_min, node_satisfies_minimum_resource,
  eligible_candidates, decide_among, choose_node_least_load,
}
use orchestrator_thesis.Scheduler.Order.{select_min_least, select_min_member}

module _ (one_minus : Fraction → Fraction) (spec : ServiceSpec) where
  -- The node is healthy, has reported its resources, and has the room that the service asks for.
  pub record IsEligible (n : NodeState) : Type 0 where
    pub up : n.status ≡ NodeStatus.healthy
    pub snapshot : ResourceSnapshot
    pub reported : n.last_resource_snapshot ≡ some snapshot
    pub cpu : spec.min_free_cpu ≤ one_minus snapshot.cpu_utilization
    pub memory : spec.min_free_memory ≤ one_minus snapshot.memory_utilization

-- The snapshots `s` and `t` of the nodes `m` and `n`, compared by load, memory and node id.
abbrev pub LoadLe : ResourceSnapshot → String → ResourceSnapshot → String → Type 0
LoadLe s m t n =
    (max s.cpu_utilization s.memory_utilization < max t.cpu_utilization t.memory_utilization)
    ⊎ (max s.cpu_utilization s.memory_utilization ≡ max t.cpu_utilization t.memory_utilization)
      × ((s.memory_utilization < t.memory_utilization)
          ⊎ (s.memory_utilization ≡ t.memory_utilization) × (name_le m n ≡ true))

-- `n` is no more loaded than `m`, if both have reported.
pub IsNoMoreLoaded : NodeState → NodeState → Type 0
IsNoMoreLoaded n m =
    (s t : ResourceSnapshot)
    → n.last_resource_snapshot ≡ some s
    → m.last_resource_snapshot ≡ some t
    → LoadLe s n.node_id t m.node_id

module _ (one_minus : Fraction → Fraction) (spec : ServiceSpec) where
  abbrev pub Eligible : NodeState → Type 0
  Eligible = IsEligible one_minus spec

  -- The loop keeps a node exactly if it is eligible, and then with its own candidate.
  keeps :
      (n : NodeState) (ns : List NodeState) (c : Candidate)
      → Eligible n
      → build_candidate n ≡ some c
      → eligible_candidates one_minus spec (n ∷ ns) ≡ c ∷ eligible_candidates one_minus spec ns
  unfolding eligible_candidates
  keeps n ns c e b = ground arith

  -- A node that has reported passes the tests, or the loop drops it.
  Eligible-of_tests :
      (n : NodeState) (s : ResourceSnapshot)
      → n.last_resource_snapshot ≡ some s
      → is_healthy n.status ≡ true
      → node_satisfies_minimum_resource one_minus spec n ≡ true
      → Eligible n
  unfolding node_satisfies_minimum_resource
  Eligible-of_tests n s r u t = record {
    up = ground arith;
    snapshot = s;
    reported = r;
    cpu = ground arith;
    memory = ground arith;
  }

  candidate_of : NodeState → ResourceSnapshot → Candidate
  candidate_of n s = record {
    node = n;
    load = max s.cpu_utilization s.memory_utilization;
    memory_utilization = s.memory_utilization;
  }

  build_candidate-candidate_of :
      (n : NodeState) (s : ResourceSnapshot)
      → n.last_resource_snapshot ≡ some s
      → build_candidate n ≡ some (candidate_of n s)
  unfolding build_candidate candidate_of
  build_candidate-candidate_of n s r = ground arith

  -- The loop drops a node, or the node is eligible.
  drops_or_Eligible :
      (n : NodeState) (ns : List NodeState)
      → (eligible_candidates one_minus spec (n ∷ ns) ≡ eligible_candidates one_minus spec ns)
        ⊎ Eligible n
  unfolding eligible_candidates
  drops_or_Eligible n ns = elim (Option-cases n.last_resource_snapshot) [
    | inl r ↦ inl (ground arith)
    | inr (s, r) ↦ elim (Bool-cases (is_healthy n.status)) [
      | inr d ↦ inl (ground arith)
      | inl u ↦ elim (Bool-cases (node_satisfies_minimum_resource one_minus spec n)) [
        | inr t ↦ inl (ground arith)
        | inl t ↦ inr (Eligible-of_tests n s r u t)
      ]
    ]
  ]

  -- What holds of each eligible node's candidate holds of each candidate.
  pub candidates-All :
      (P : Candidate → Type 0) (ns : List NodeState)
      → All (λ n. (c : Candidate) → Eligible n → build_candidate n ≡ some c → P c) ns
      → All P (eligible_candidates one_minus spec ns)
  candidates-All P [] h = unfold eligible_candidates in tt
  candidates-All P (n ∷ ns) h =
      let rest = candidates-All P ns h.1 in
      elim (drops_or_Eligible n ns) [
        | inl drop ↦ rw drop rest
        | inr e ↦
            let c = candidate_of n e.snapshot in
            let b = build_candidate-candidate_of n e.snapshot e.reported in
            rw (keeps n ns c e b) (h.0 c e b, rest)
      ]

  -- And the other way round: each eligible node has its candidate among the candidates.
  pub nodes-All :
      (P : Candidate → Type 0) (ns : List NodeState)
      → All P (eligible_candidates one_minus spec ns)
      → All (λ n. (c : Candidate) → Eligible n → build_candidate n ≡ some c → P c) ns
  nodes-All P [] h = tt
  nodes-All P (n ∷ ns) h = (
    λ c e b. (rw (keeps n ns c e b) at h).0,
    elim (drops_or_Eligible n ns) [
      | inl drop ↦ nodes-All P ns (rw drop at h)
      | inr e ↦
          let b = build_candidate-candidate_of n e.snapshot e.reported in
          nodes-All P ns (rw (keeps n ns (candidate_of n e.snapshot) e b) at h).1
    ],
  )

  abbrev Origin : List NodeState → Candidate → Type 0
  Origin ns c = Any (λ n. Eligible n × (build_candidate n ≡ some c)) ns

  candidates-Origin :
      (ns : List NodeState) → All (Origin ns) (eligible_candidates one_minus spec ns)
  candidates-Origin [] = unfold eligible_candidates in tt
  candidates-Origin (n ∷ ns) =
      let rest =
        All-map {P = Origin ns} {Q = Origin (n ∷ ns)} (λ c o. inr o) _ (candidates-Origin ns) in
      elim (drops_or_Eligible n ns) [
        | inl drop ↦ rw drop rest
        | inr e ↦
            let b = build_candidate-candidate_of n e.snapshot e.reported in
            rw (keeps n ns (candidate_of n e.snapshot) e b) (inl (e, b), rest)
      ]

  LoadLe-of_key_le :
      (n m : NodeState) (s t : ResourceSnapshot)
      → key_le (candidate_of n s) (candidate_of m t) ≡ true
      → LoadLe s n.node_id t m.node_id
  unfolding key_le candidate_of
  LoadLe-of_key_le n m s t h = ground arith

  candidate_unique :
      (n : NodeState) (s : ResourceSnapshot) (c : Candidate)
      → n.last_resource_snapshot ≡ some s
      → build_candidate n ≡ some c
      → c ≡ candidate_of n s
  candidate_unique n s c r b = cc (build_candidate-candidate_of n s r)

  -- A node whose candidate has the least key is no more loaded than any eligible node.
  least_node :
      (ns : List NodeState) (best : Candidate) (n : NodeState)
      → build_candidate n ≡ some best
      → All
          (λ m. (c : Candidate) → Eligible m → build_candidate m ≡ some c → key_le best c ≡ true)
          ns
      → All (λ m. Eligible m → IsNoMoreLoaded n m) ns
  unfolding IsNoMoreLoaded
  least_node ns best n b =
      All-map
        (λ m h e s t rs rt.
          let le = h (candidate_of m t) e (build_candidate-candidate_of m t rt) in
          LoadLe-of_key_le n m s t (rw (candidate_unique n s best rs b) at le))
        ns

  candidate_name : (n : NodeState) (c : Candidate) → build_candidate n ≡ some c → n ≡ c.node
  unfolding build_candidate
  candidate_name n c b = ground arith

  -- The node that the loop's minimum stands for, described without the loop.
  abbrev pub IsLeastLoaded : List NodeState → String → NodeState → Type 0
  IsLeastLoaded ns id n =
      (n.node_id ≡ id) × Eligible n × All (λ m. Eligible m → IsNoMoreLoaded n m) ns

  least_of_list :
      (ns : List NodeState) (c : Candidate) (cs : List Candidate)
      → eligible_candidates one_minus spec ns ≡ c ∷ cs
      → Any (IsLeastLoaded ns (select_min c cs).node.node_id) ns
  least_of_list ns c cs split =
      let best = select_min c cs in
      let (to_c, to_all) = select_min_least c cs in
      let origins = rw split at (candidates-Origin ns) in
      let least = nodes-All (λ d. key_le best d ≡ true) ns (rw split (to_c, to_all)) in
      Any-map
        (λ n h. (
          ap (λ (m : NodeState). m.node_id) (candidate_name n best h.1),
          h.0,
          least_node ns best n h.1 least,
        ))
        ns (select_min_member (Origin ns) c cs origins.0 origins.1)

  -- If a node is selected, it is one of the given nodes, it is eligible, and no eligible node has
  -- less load, less memory utilisation at equal load, or a smaller id where both are equal.
  pub choose_node-IsLeastLoaded :
      (nodes : List NodeState) (id : String)
      → (choose_node_least_load one_minus spec nodes).selected_node_id ≡ some id
      → Any (IsLeastLoaded nodes id) nodes
  unfolding choose_node_least_load
  choose_node-IsLeastLoaded nodes id h = go (eligible_candidates one_minus spec nodes) refl
    where
      go :
          (cs : List Candidate)
          → eligible_candidates one_minus spec nodes ≡ cs
          → Any (IsLeastLoaded nodes id) nodes
      go [] e = absurd (ground arith)
      go (c ∷ cs) e =
          subst (λ i. Any (IsLeastLoaded nodes i) nodes) (ground arith) (least_of_list nodes c cs e)

  none_selected :
      (cs : List Candidate) → ((decide_among spec cs).selected_node_id ≡ none) ↔ All (λ c. ⊥) cs
  unfolding decide_among
  none_selected [] = (λ _. tt, λ _. refl)
  none_selected (c ∷ cs) = (λ e. cc, λ h. absurd h.0)

  -- No node is selected exactly if no node is eligible.
  pub choose_node-none_iff :
      (nodes : List NodeState)
      → ((choose_node_least_load one_minus spec nodes).selected_node_id ≡ none)
        ↔ All (λ n. ¬ Eligible n) nodes
  unfolding choose_node_least_load
  choose_node-none_iff nodes =
      let cs = eligible_candidates one_minus spec nodes in
      (
        λ e.
            All-map
              (λ n f p.
                f (candidate_of n p.snapshot) p
                  (build_candidate-candidate_of n p.snapshot p.reported))
              nodes (nodes-All (λ c. ⊥) nodes ((none_selected cs).0 e)),
        λ h.
            (none_selected cs).1
              (candidates-All (λ c. ⊥) nodes (All-map (λ n f c p b. f p) nodes h)),
      )
