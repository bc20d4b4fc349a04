-- ===== src/Scheduler/Order.antt =====
-- The key of a candidate is a total order, and `select_min` finds a least one.
use orchestrator_thesis.Prelude.{
  ◌≡◌, ◌⊎◌, inl, inr, true, not, List, [], ◌∷◌, arith, if◌then◌else◌, All, Bool-cases,
}
use orchestrator_thesis.Names.{name_le_total, name_le_trans, name_le_antisymm}
use orchestrator_thesis.Scheduler.{Candidate, key_le, select_min}

pub key_le_total : (c d : Candidate) → (key_le c d ≡ true) ⊎ (key_le d c ≡ true)
unfolding key_le
key_le_total c d = ground (arith, name_le_total c.node.node_id d.node.node_id)

pub key_le_trans : (c d e : Candidate) → key_le c d ≡ true → key_le d e ≡ true → key_le c e ≡ true
unfolding key_le
key_le_trans c d e h k = ground (arith, name_le_trans c.node.node_id d.node.node_id e.node.node_id)

-- Two candidates that are each at most the other have one node id.
pub key_le_antisymm :
    (c d : Candidate) → key_le c d ≡ true → key_le d c ≡ true → c.node.node_id ≡ d.node.node_id
unfolding key_le
key_le_antisymm c d h k = ground (arith, name_le_antisymm c.node.node_id d.node.node_id)

key_le_refl : (c : Candidate) → key_le c c ≡ true
key_le_refl c = elim (key_le_total c c) [ inl h ↦ h | inr h ↦ h ]

-- The better of the best so far and the next candidate is at most both.
keep_better :
    (best c : Candidate)
    → let b = if not (key_le best c) then c else best in
      (key_le b best ≡ true) × (key_le b c ≡ true)
keep_better best c = elim (Bool-cases (key_le best c)) [
  | inl h ↦ rw h (key_le_refl best, h)
  | inr h ↦ rw h (ground (arith, key_le_total best c), key_le_refl c)
]

-- The result is at most the best so far, and at most every candidate that is left.
pub select_min_least :
    (best : Candidate) (cs : List Candidate)
    → (key_le (select_min best cs) best ≡ true) × All (λ c. key_le (select_min best cs) c ≡ true) cs
unfolding select_min
select_min_least best [] = (key_le_refl best, tt)
select_min_least best (c ∷ cs) =
    let b = if not (key_le best c) then c else best in
    let (least, all) = select_min_least b cs in
    let (to_best, to_c) = keep_better best c in
    (
      key_le_trans (select_min b cs) b best least to_best,
      (key_le_trans (select_min b cs) b c least to_c, all),
    )

-- The result is the best so far or one of the others.
pub select_min_member :
    (P : Candidate → Type 0) (best : Candidate) (cs : List Candidate)
    → P best
    → All P cs
    → P (select_min best cs)
unfolding select_min
select_min_member P best [] p all = p
select_min_member P best (c ∷ cs) p all = elim (Bool-cases (key_le best c)) [
  | inl h ↦ rw h (select_min_member P best cs p all.1)
  | inr h ↦ rw h (select_min_member P c cs all.0 all.1)
]
