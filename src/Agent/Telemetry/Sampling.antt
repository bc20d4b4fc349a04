-- ===== src/Agent/Telemetry/Sampling.antt =====
-- The resource snapshots of agent/app/services/telemetry.py.
use orchestrator_thesis.Prelude.{
  ℕ, ◌+◌, ◌-◌, ◌≤◌, String, ◌≡◌, refl, ◌⊎◌, inl, inr, true, false, Option, none, some, List, ◌∷◌,
  arith, leb, ltb, if_cases,
}
use orchestrator_thesis.Models.{Time, Fraction, ResourceSnapshot}
use orchestrator_thesis.Agent.State.{record_snapshot}
use orchestrator_thesis.Agent.Adapter.{AgentEnv}
use orchestrator_thesis.Agent.Telemetry.{
  Floats, Proc, Telemetry, resource_snapshot, at_most, cpu_between, read_proc_stat,
  read_proc_meminfo, sample_cpu_utilization, sample_memory_utilization, sample, is_near,
  should_send, post, snapshot_round,
}

module _ (floats : Floats) where
  IsBelow : Fraction → Type 0
  IsBelow x = x ≤ floats.one

  at_most-IsBelow : (x : Fraction) → IsBelow (at_most floats.one x)
  unfolding IsBelow
  at_most-IsBelow x = ground arith

  cpu-IsBelow :
      (values : List ℕ) (previous : Option (ℕ × ℕ))
      → IsBelow (sample_cpu_utilization floats values previous)
  unfolding sample_cpu_utilization cpu_between IsBelow
  cpu-IsBelow values none = omega arith
  cpu-IsBelow values (some (total, idle)) =
      if_cases IsBelow (leb (read_proc_stat values).0 total) 0 _ (λ _. omega arith)
        (λ _.
          if_cases IsBelow
            (ltb ((read_proc_stat values).0 - total + idle) (read_proc_stat values).1) 0 _
            (λ _. omega arith) (λ _. at_most-IsBelow _))

  memory-IsBelow : (lines : List (String × ℕ)) → IsBelow (sample_memory_utilization floats lines)
  unfolding sample_memory_utilization IsBelow
  memory-IsBelow lines =
      let (total, available) = read_proc_meminfo lines in
      if_cases IsBelow (leb total 0) 0 _ (λ _. omega arith)
        (λ _.
          if_cases IsBelow (ltb total available) 0 _ (λ _. omega arith) (λ _. at_most-IsBelow _))

  -- Whatever /proc shows, now and before, and however floats divide, both utilisations of a sample
  -- are at most 1.0.
  pub sample-bounded :
      (proc : Proc) (now : Time) (previous_cpu : Option (ℕ × ℕ))
      → let snapshot = sample floats proc now previous_cpu in
        (snapshot.cpu_utilization ≤ floats.one) × (snapshot.memory_utilization ≤ floats.one)
  unfolding sample IsBelow
  sample-bounded proc now previous_cpu =
      (cpu-IsBelow proc.stat previous_cpu, memory-IsBelow proc.meminfo)

unsent :
    (floats : Floats) (snapshot : ResourceSnapshot) (last : Option (Fraction × Fraction))
    → should_send floats snapshot last ≡ false
    → (sent : Fraction × Fraction) × (last ≡ some sent) × (is_near floats snapshot sent ≡ true)
unfolding should_send
unsent floats snapshot none h = absurd (cc h)
unsent floats snapshot (some sent) h = (sent, refl, ground (arith, h))

-- What the controller was last sent, after a round that took a snapshot: that snapshot, by one more
-- request, or, without a request, values that both are near it.
pub record IsUpToDate {D : Type 0} (env : AgentEnv D) (floats : Floats) (t t' : Telemetry D)
    : Type 0 where
  pub snapshot : ResourceSnapshot
  pub taken : t'.agent.state.last_resource_snapshot ≡ some snapshot
  pub sent : Fraction × Fraction
  pub is_last : t'.last_sent_snapshot ≡ some sent
  pub either :
      ((sent ≡ (snapshot.cpu_utilization, snapshot.memory_utilization))
        × (t'.posts ≡ resource_snapshot env.settings.node_id snapshot ∷ t.posts))
      ⊎ ((is_near floats snapshot sent ≡ true) × (t'.posts ≡ t.posts))

-- After each round of the snapshot loop the controller was last sent the snapshot just taken, by one
-- request, or values that the snapshot is near in both parts, and then nothing is sent.
pub snapshot_round-IsUpToDate :
    {D : Type 0} (env : AgentEnv D) (floats : Floats) (proc : Proc) (t : Telemetry D)
    → IsUpToDate env floats t (snapshot_round env floats proc t)
unfolding snapshot_round record_snapshot post
snapshot_round-IsUpToDate env floats proc t =
    let snapshot = sample floats proc env.now t.previous_cpu in
    if_cases (IsUpToDate env floats t) (should_send floats snapshot t.last_sent_snapshot) _ _
      (λ _. record {
        snapshot = snapshot;
        taken = refl;
        sent = (snapshot.cpu_utilization, snapshot.memory_utilization);
        is_last = refl;
        either = inl (refl, refl);
      })
      (λ e.
        let (sent, known, near) = unsent floats snapshot t.last_sent_snapshot e in
        record {
          snapshot = snapshot;
          taken = refl;
          sent = sent;
          is_last = known;
          either = inr (near, refl);
        })
