-- ===== src/Store/Locks.antt =====
-- The lock table of the store: one lock for each service, never the same for two.
use orchestrator_thesis.Prelude.{
  ℕ, ◌<◌, String, ◌≡◌, ◌≢◌, refl, inl, inr, some, arith, Option-cases, eq_iff, subst,
}
use orchestrator_thesis.Table.{get}
use orchestrator_thesis.Store.{Store, acquire_service_lock, new_store}

-- The locks handed out were made before, and two services have two locks.
pub record IsLocked (s : Store) : Type 0 where
  pub made : (id : String) (l : ℕ) → get s.service_locks id ≡ some l → l < s.locks_made
  pub apart :
      (i j : String) (l : ℕ)
      → get s.service_locks i ≡ some l
      → get s.service_locks j ≡ some l
      → i ≡ j

pub new_store-IsLocked : (n : ℕ) → IsLocked (new_store n)
unfolding new_store
new_store-IsLocked n = record { made = λ id l e. cc; apart = λ i j l e. cc }

-- What is known of a store and a lock that were handed out for `id`.
record IsHeld (id : String) (r : Store × ℕ) : Type 0 where
  pub locked : IsLocked r.0
  pub stored : get r.0.service_locks id ≡ some r.1

acquire-IsHeld : (id : String) (s : Store) → IsLocked s → IsHeld id (acquire_service_lock id s)
unfolding acquire_service_lock
acquire-IsHeld id s h = elim (Option-cases (get s.service_locks id)) [
  | inr (l, e) ↦ rw (acquire_service_lock, e) (record { locked = h; stored = e })
  | inl e ↦
      rw (acquire_service_lock, e)
        (record {
          locked = record {
            made = λ j l f. ground (arith, h.made j l, eq_iff id j);
            apart = λ i j l f g.
                ground (arith, h.made i l, h.made j l, h.apart i j l, eq_iff id i, eq_iff id j);
          };
          stored = ground (arith, eq_iff id id);
        })
]

-- A lock that is stored is handed out again.
again :
    (id : String) (s : Store) (l : ℕ)
    → get s.service_locks id ≡ some l
    → acquire_service_lock id s ≡ (s, l)
unfolding acquire_service_lock
again id s l e = rw (acquire_service_lock, e) refl

-- A lock that was handed out stays with its service.
kept :
    (id other : String) (s : Store) (l : ℕ)
    → get s.service_locks id ≡ some l
    → get (acquire_service_lock other s).0.service_locks id ≡ some l
unfolding acquire_service_lock
kept id other s l e = elim (Option-cases (get s.service_locks other)) [
  | inr (m, f) ↦ rw (acquire_service_lock, f) e
  | inl f ↦ rw (acquire_service_lock, f) (ground (arith, eq_iff other id))
]

-- In a store whose locks are in order, asking again for the lock of a service gives the same lock
-- and changes nothing, asking then for that of another service gives another lock, and the locks
-- stay in order.
pub acquire_service_lock-exclusive :
    (id other : String) (s : Store)
    → id ≢ other
    → IsLocked s
    → (acquire_service_lock id (acquire_service_lock id s).0 ≡ acquire_service_lock id s)
      × ((acquire_service_lock other (acquire_service_lock id s).0).1
          ≢ (acquire_service_lock id s).1)
      × IsLocked (acquire_service_lock id s).0
acquire_service_lock-exclusive id other s differ h =
    let held = acquire-IsHeld id s h in
    let next = acquire-IsHeld other (acquire_service_lock id s).0 held.locked in
    (
      again id _ _ held.stored,
      λ same. differ (
          next.locked.apart id other _ (kept id other _ _ held.stored) (
            subst
              (λ l.
                get (acquire_service_lock other (acquire_service_lock id s).0).0.service_locks other
                ≡ some l)
              same next.stored)),
      held.locked,
    )
