-- ===== src/Server/Results/Cache.antt =====
-- The cache as a map from job ids to results, with room for sixteen.
use ferretptimize.Common.{ℕ, true, false, ◌≡◌, ◌≢◌, ◌⊎◌, refl, [], ◌∷◌, none, some, arith, inl, inr}
use ferretptimize.Ferret.{JobResult}
use ferretptimize.Server.Results.{Cache, take, store}

-- No slot holds a result of the job.
abbrev pub Lacks : ℕ → Cache → Type 0
Lacks id [] = Unit
Lacks id (none ∷ slots) = Lacks id slots
Lacks id (some r ∷ slots) = (r.id ≢ id) × Lacks id slots

abbrev pub IsFull : Cache → Type 0
IsFull [] = Unit
IsFull (none ∷ slots) = ⊥
IsFull (some r ∷ slots) = IsFull slots

pub take-Lacks : (c : Cache) (id : ℕ) → Lacks id c → take c id ≡ (none, c)
unfolding take
take-Lacks [] id h = refl
take-Lacks (none ∷ slots) id h = rw (take-Lacks slots id h)
take-Lacks (some r ∷ slots) id h = ground (arith, take-Lacks slots id h.1, h.0)

-- A result is kept exactly when a slot is free. One that is kept under an id that the cache lacks is
-- the one that a later take of the id gives, and taking it restores the cache; takes of other ids
-- find what they found before. One that is not kept leaves the cache as it was.
pub take-store :
    (c : Cache) (r : JobResult)
    → Lacks r.id c
    → ((store c r).0 ≡ true)
        × (take (store c r).1 r.id ≡ (some r, c))
        × ((id : ℕ) → id ≢ r.id → (take (store c r).1 id).0 ≡ (take c id).0)
      ⊎ ((store c r).0 ≡ false) × IsFull c × ((store c r).1 ≡ c)
unfolding take store
take-store [] r h = inr (refl, tt, refl)
take-store (none ∷ slots) r h = inl (refl, ground (arith), λ id ne. ground arith)
take-store (some s ∷ slots) r h = elim (take-store slots r h.1) [
  | inl (kept, found, others) ↦
      inl (kept, ground (arith, h.0, found), λ id ne. ground (arith, others id ne))
  | inr (lost, full, same) ↦ inr (lost, full, rw same)
]
