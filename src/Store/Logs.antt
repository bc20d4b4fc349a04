-- ===== src/Store/Logs.antt =====
-- The event log and the recovery history: the newest first, and nothing lost within the bound.
use orchestrator_thesis.Prelude.{ℕ, zero, suc, ◌≤◌, ◌≡◌, refl, ap, arith, List, [], ◌∷◌, take}
use orchestrator_thesis.Models.{EventRecord}
use orchestrator_thesis.Store

take-take {ℓ} : {A : Type ℓ} (n m : ℕ) (xs : List A) → n ≤ m → take n (take m xs) ≡ take n xs
take-take zero m xs h = refl
take-take (suc n) zero xs h = absurd (omega (arith, h))
take-take (suc n) (suc m) [] h = refl
take-take (suc n) (suc m) (x ∷ xs) h = ap (λ ys. x ∷ ys) (take-take n m xs (omega (arith, h)))

-- The events listed after one is appended are that event and those listed before it, if as many
-- as are asked for are within the bound of the log.
pub list_events-append_event :
    (n : ℕ) (event : EventRecord) (s : Store.Store)
    → suc n ≤ s.event_log_max_items
    → Store.list_events (suc n) (Store.append_event event s) ≡ event ∷ Store.list_events n s
unfolding Store.list_events Store.append_event
list_events-append_event n event s h = take-take (suc n) s.event_log_max_items (event ∷ s.events) h
