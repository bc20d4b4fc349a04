-- ===== src/Agent/Ports/Choice.antt =====
-- The published port that agent/app/services/workload_manager.py chooses for a service.
use native.Mathlib.Nat.{mod-lt, mod-eq_of_lt, add-mod_right}
use orchestrator_thesis.Prelude.{
  ℕ, zero, suc, ◌+◌, ◌-◌, ◌%◌, ◌≤◌, ◌<◌, String, ◌≡◌, refl, sym, ap, subst, ◌∙◌, ◌⊎◌, inl, inr, ◌↔◌,
  ◌≢◌, true, false, Option, none, some, List, [], ◌∷◌, arith, All, eq_iff, eqb, leb, Bool-cases,
  Option-cases,
}
use orchestrator_thesis.Models.{ServiceSpec}
use orchestrator_thesis.Agent.{AgentSettings, WorkloadRecord, AgentError, value_error}
use orchestrator_thesis.Effect.{Outcome, returned, raised, returned-injective, returned-raised}
use orchestrator_thesis.Agent.Ports.{
  used_ports, is_used, candidate_at, first_free, choose_port, ensure_published_port,
}

-- Only the service itself may have the port on record.
abbrev pub IsFree : String → ℕ → List WorkloadRecord → Type 0
IsFree service_id port records =
    All (λ (r : WorkloadRecord). r.published_port ≡ some port → r.service.service_id ≡ service_id)
      records

-- A port of the configured range.
pub record IsAvailable (settings : AgentSettings) (service_id : String)
    (records : List WorkloadRecord) (port : ℕ) : Type 0 where
  pub above : settings.published_port_base ≤ port
  pub below : port ≤ settings.published_port_max
  pub free : IsFree service_id port records

IsFree-unused :
    (id : String) (port : ℕ) (records : List WorkloadRecord)
    → is_used port (used_ports id records) ≡ false
    → IsFree id port records
unfolding is_used used_ports
IsFree-unused id port [] h = tt
IsFree-unused id port (r ∷ rs) h =
    ground (arith, eq_iff r.service.service_id id, IsFree-unused id port rs)

unused-IsFree :
    (id : String) (port : ℕ) (records : List WorkloadRecord)
    → IsFree id port records
    → is_used port (used_ports id records) ≡ false
unfolding is_used used_ports
unused-IsFree id port [] h = refl
unused-IsFree id port (r ∷ rs) h =
    ground (arith, eq_iff r.service.service_id id, unused-IsFree id port rs)

first_free_sound :
    (used : List ℕ) (base span start left offset c : ℕ)
    → first_free used base span start left offset ≡ some c
    → (is_used c used ≡ false) × (o : ℕ) × (c ≡ candidate_at base span start o)
unfolding first_free
first_free_sound used base span start zero offset c h = ground arith
first_free_sound used base span start (suc left) offset c h =
    elim (Bool-cases (is_used (candidate_at base span start offset) used)) [
      | inl e ↦ first_free_sound used base span start left (suc offset) c (ground arith)
      | inr e ↦
          let same : c ≡ candidate_at base span start offset = ground arith in
          (subst (λ d. is_used d used ≡ false) (sym same) e, offset, same)
    ]

first_free_complete :
    (used : List ℕ) (base span start left offset : ℕ)
    → first_free used base span start left offset ≡ none
    → (o : ℕ) → offset ≤ o
    → o < offset + left
    → is_used (candidate_at base span start o) used ≡ true
unfolding first_free
first_free_complete used base span start zero offset h o l k = absurd (omega (arith, l, k))
first_free_complete used base span start (suc left) offset h o l k =
    elim (Bool-cases (is_used (candidate_at base span start offset) used)) [
      | inl e ↦ elim (Bool-cases (eqb o offset)) [
        | inl same ↦
            let p : o ≡ offset = ground (arith, same) in
            subst (λ i. is_used (candidate_at base span start i) used ≡ true) (sym p) e
        | inr other ↦
            let later : suc offset ≤ o = ground (arith, other, l) in
            first_free_complete used base span start left (suc offset) (ground arith) o later
              (omega (arith, k))
      ]
      | inr e ↦ ground arith
    ]

-- Each port of the range is the candidate at some offset.
reached :
    (base span q n : ℕ)
    → q < span
    → n < span
    → (o : ℕ) × (o < span) × (candidate_at base span (base + n) o ≡ base + q)
reached base span q n hq hn = elim (Bool-cases (leb n q)) [
  | inl e ↦
      let le : n ≤ q = ground (arith, e) in
      let same : base + n - base + (q - n) ≡ q = omega (arith, le) in
      (q - n, omega (arith, hq), ap (λ i. base + i) (ap (λ i. i % span) same ∙ mod-eq_of_lt hq))
  | inr e ↦
      let lt : q < n = ground (arith, e) in
      let same : base + n - base + (q + span - n) ≡ q + span = omega (arith, hn) in
      (
        q + span - n,
        omega (arith, lt, hn),
        ap (λ i. base + i) (ap (λ i. i % span) same ∙ add-mod_right q span ∙ mod-eq_of_lt hq),
      )
]

module _ (crc32 : String → ℕ) (settings : AgentSettings) (service : ServiceSpec)
    (records : List WorkloadRecord) where
  private_span : ℕ
  unfolding choose_port
  private_span = settings.published_port_max + 1 - settings.published_port_base

  search_ports : Option ℕ
  unfolding choose_port private_span
  search_ports =
      let base = settings.published_port_base in
      let span = private_span in
      first_free (used_ports service.service_id records) base span
        (base + crc32 service.service_id % span) span 0

  search_ports-some :
      (port : ℕ)
      → settings.published_port_base ≤ settings.published_port_max
      → search_ports ≡ some port
      → IsAvailable settings service.service_id records port
  unfolding search_ports private_span
  search_ports-some port range h =
      let base = settings.published_port_base in
      let span = settings.published_port_max + 1 - base in
      let used = used_ports service.service_id records in
      let (free, offset, same) =
        first_free_sound used base span (base + crc32 service.service_id % span) span 0 port h in
      let some_span : 0 < span = omega (arith, range) in
      let below : candidate_at base span (base + crc32 service.service_id % span) offset
          < base + span =
        omega (arith, mod-lt (base + crc32 service.service_id % span - base + offset) some_span) in
      record {
        above = omega (arith, same);
        below = omega (arith, same, below, range);
        free = IsFree-unused service.service_id port records free;
      }

  search_ports-none :
      (port : ℕ) → IsAvailable settings service.service_id records port → search_ports ≢ none
  unfolding search_ports private_span
  search_ports-none port free h =
      let base = settings.published_port_base in
      let span = settings.published_port_max + 1 - base in
      let used = used_ports service.service_id records in
      let n = crc32 service.service_id % span in
      let some_span : 0 < span = omega (arith, free.above, free.below) in
      let (offset, within, same) =
        reached base span (port - base) n (omega (arith, free.above, free.below))
          (mod-lt (crc32 service.service_id) some_span) in
      let port_same : candidate_at base span (base + n) offset ≡ port =
        omega (arith, same, free.above) in
      let taken =
        first_free_complete used base span (base + n) span 0 h offset (omega arith)
          (omega (arith, within)) in
      let taken_port : is_used port used ≡ true =
        subst (λ p. is_used p used ≡ true) port_same taken in
      let unused : is_used port used ≡ false =
        unused-IsFree service.service_id port records free.free in
      cc

  Given : Outcome AgentError ServiceSpec → Type 0
  Given outcome =
      (port : ℕ) × (outcome ≡ returned (record service { published_port = some port }))
      × IsAvailable settings service.service_id records port

  Refused : Outcome AgentError ServiceSpec → Type 0
  Refused outcome =
      ((e : AgentError) × (outcome ≡ raised e))
      × ((port : ℕ) → ¬ IsAvailable settings service.service_id records port)

  outside :
      {port : ℕ}
      → leb (settings.published_port_max + 1) settings.published_port_base ≡ true
      → ¬ IsAvailable settings service.service_id records port
  outside e free =
      let le : settings.published_port_max + 1 ≤ settings.published_port_base = ground (arith, e) in
      omega (arith, free.above, free.below, le)

  choose_port-outcome :
      Given (choose_port crc32 settings service records)
      ⊎ Refused (choose_port crc32 settings service records)
  unfolding choose_port search_ports private_span Given Refused
  choose_port-outcome =
      elim (Bool-cases (leb (settings.published_port_max + 1) settings.published_port_base)) [
        | inl e ↦ inr (
          (value_error "Invalid published port range configuration", rw e refl),
          λ port free. outside e free,
        )
        | inr e ↦ elim (Option-cases search_ports) [
          | inl stuck ↦ inr (
            (value_error "No available published port in configured range", rw (e, stuck) refl),
            λ port free. search_ports-none port free stuck,
          )
          | inr (port, found) ↦
              inl (port, rw (e, found) refl, search_ports-some port (ground (arith, e)) found)
        ]
      ]

  ensure_published_port-choose_port :
      service.published_port ≡ none
      → ensure_published_port crc32 settings service records
        ≡ choose_port crc32 settings service records
  unfolding ensure_published_port
  ensure_published_port-choose_port unset = rw unset refl

  -- A service without a port that is given one keeps everything else, and the port lies in the
  -- configured range and is on record for no other service.
  pub ensure_published_port-IsAvailable :
      (chosen : ServiceSpec)
      → service.published_port ≡ none
      → ensure_published_port crc32 settings service records ≡ returned chosen
      → (port : ℕ) × (chosen ≡ record service { published_port = some port })
        × IsAvailable settings service.service_id records port
  unfolding Given Refused
  ensure_published_port-IsAvailable chosen unset h =
      let h' = sym (ensure_published_port-choose_port unset) ∙ h in
      elim choose_port-outcome [
        | inl (port, same, free) ↦ (port, returned-injective h' same, free)
        | inr ((e, failed), none_free) ↦ absurd (returned-raised h' failed)
      ]

  -- A service without a port is given one exactly if a port of the range is available; else the call
  -- raises.
  pub ensure_published_port-returned_iff :
      service.published_port ≡ none
      → ((port : ℕ) × IsAvailable settings service.service_id records port) ↔ (
          (chosen : ServiceSpec) × (ensure_published_port crc32 settings service records
            ≡ returned chosen))
  unfolding Given Refused
  ensure_published_port-returned_iff unset =
      let same = ensure_published_port-choose_port unset in
      elim choose_port-outcome [
        | inl (port, given, free) ↦
            (λ _. (record service { published_port = some port }, same ∙ given), λ _. (port, free))
        | inr ((e, failed), none_free) ↦ (
          λ (port, free). absurd (none_free port free),
          λ (chosen, given). absurd (returned-raised given (same ∙ failed)),
        )
      ]

  pub ensure_published_port-kept :
      {port : ℕ}
      → service.published_port ≡ some port
      → ensure_published_port crc32 settings service records ≡ returned service
  unfolding ensure_published_port
  ensure_published_port-kept e = rw e refl

  pub ensure_published_port-same_id :
      {chosen : ServiceSpec}
      → ensure_published_port crc32 settings service records ≡ returned chosen
      → chosen.service_id ≡ service.service_id
  ensure_published_port-same_id h = elim (Option-cases service.published_port) [
    | inl unset ↦
        let (port, same, free) = ensure_published_port-IsAvailable _ unset h in
        ap (λ (s : ServiceSpec). s.service_id) same
    | inr (port, e) ↦
        ap (λ (s : ServiceSpec). s.service_id) (returned-injective h (ensure_published_port-kept e))
  ]
