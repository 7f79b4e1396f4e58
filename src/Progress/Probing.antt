-- ===== src/Progress/Probing.antt =====
-- The registry of src/progress.c as a map from job ids to channels, by open addressing.
use ferretptimize.Common.{
  ℕ, zero, suc, ◌+◌, ◌%◌, ◌≡◌, ◌≢◌, ◌⊎◌, inl, inr, refl, ap, ◌∙◌, Bool, true, false, List, [], ◌∷◌,
  ◌++◌, Option, none, some, length, length-set, get_elem?, set, arith, Bool-cases, Option-cases,
}
use mathlib.Core.Option.{some_inj}
use native.Mathlib.Decide.{ℕ_discrete}
use ferretptimize.Common.Int.{pos}
use ferretptimize.Progress.{
  Channel, Registry, registry_index, free_probe, find_probe, register, find,
}

abbrev pub Entries : Type 0
Entries = List (Option (ℕ × ℕ))

-- No entry holds the job.
abbrev pub LacksJob : ℕ → Entries → Type 0
LacksJob job_id [] = Unit
LacksJob job_id (none ∷ entries) = LacksJob job_id entries
LacksJob job_id (some held ∷ entries) = (held.0 ≢ job_id) × LacksJob job_id entries

get_elem?-LacksJob :
    (job_id : ℕ) (entries : Entries) (i : ℕ) (held : ℕ × ℕ)
    → LacksJob job_id entries
    → get_elem? entries i ≡ some (some held)
    → held.0 ≢ job_id
get_elem?-LacksJob job_id [] i held l e = absurd (cc)
get_elem?-LacksJob job_id (none ∷ entries) zero held l e = absurd (cc)
get_elem?-LacksJob job_id (some h ∷ entries) zero held l e = rw (← (some_inj.0 (some_inj.0 e))) l.0
get_elem?-LacksJob job_id (none ∷ entries) (suc i) held l e =
    get_elem?-LacksJob job_id entries i held l e
get_elem?-LacksJob job_id (some h ∷ entries) (suc i) held l e =
    get_elem?-LacksJob job_id entries i held l.1 e

get_elem?-set_self :
    (entries : Entries) (i : ℕ) (old v : Option (ℕ × ℕ))
    → get_elem? entries i ≡ some old
    → get_elem? (set entries i v) i ≡ some v
get_elem?-set_self [] i old v e = absurd (cc)
get_elem?-set_self (x ∷ entries) zero old v e = refl
get_elem?-set_self (x ∷ entries) (suc i) old v e = get_elem?-set_self entries i old v e

get_elem?-set_ne :
    (entries : Entries) (i j : ℕ) (v : Option (ℕ × ℕ))
    → i ≢ j
    → get_elem? (set entries i v) j ≡ get_elem? entries j
get_elem?-set_ne [] i j v ne = refl
get_elem?-set_ne (x ∷ entries) zero zero v ne = absurd (ne refl)
get_elem?-set_ne (x ∷ entries) zero (suc j) v ne = refl
get_elem?-set_ne (x ∷ entries) (suc i) zero v ne = refl
get_elem?-set_ne (x ∷ entries) (suc i) (suc j) v ne =
    get_elem?-set_ne entries i j v (λ e. ne (ap suc e))

entry_cases :
    (o : Option (Option (ℕ × ℕ)))
    → (o ≡ none) ⊎ (o ≡ some none) ⊎ ((held : ℕ × ℕ) × (o ≡ some (some held)))
entry_cases none = inl refl
entry_cases (some none) = inr (inl refl)
entry_cases (some (some held)) = inr (inr (held, refl))

some_ne : {o : Option (Option (ℕ × ℕ))} {held : ℕ × ℕ} → o ≡ some none → o ≡ some (some held) → ⊥
some_ne p q = ground (arith, p, q)

module _ (entries : Entries) (capacity start : ℕ) where
  -- The probe ends on a free entry.
  pub free_probe-free :
      (i n idx : ℕ)
      → free_probe entries capacity start i n ≡ some idx
      → get_elem? entries idx ≡ some none
  unfolding free_probe
  free_probe-free i zero idx e = absurd (cc)
  free_probe-free i (suc n) idx e =
      elim (entry_cases (get_elem? entries ((start + i) % capacity))) [
        | inl q ↦ absurd (ground (arith, q, e))
        | inr (inl q) ↦ let same : idx ≡ (start + i) % capacity = ground (arith, q, e) in rw same q
        | inr (inr (held, q)) ↦ free_probe-free (i + 1) n idx (ground (arith, q, e))
      ]

  module _ (idx job_id address : ℕ) where
    -- The probe for the job finds what was put into the entry that the probe for a free one ended on.
    find_probe-own :
        (i n : ℕ)
        → LacksJob job_id entries
        → free_probe entries capacity start i n ≡ some idx
        → find_probe (set entries idx (some (job_id, address))) capacity start job_id i n
          ≡ some address
    unfolding free_probe find_probe
    find_probe-own i zero l e = absurd (cc)
    find_probe-own i (suc n) l e =
        let j = (start + i) % capacity in
        elim (entry_cases (get_elem? entries j)) [
          | inl q ↦ absurd (ground (arith, q, e))
          | inr (inl q) ↦
              let same : idx ≡ j = ground (arith, q, e) in
              let put : get_elem? (set entries idx (some (job_id, address))) j
                  ≡ some (some (job_id, address)) =
                rw same (get_elem?-set_self entries j none (some (job_id, address)) q) in
              ground (arith, put)
          | inr (inr (held, q)) ↦
              let rest : free_probe entries capacity start (i + 1) n ≡ some idx =
                ground (arith, q, e) in
              let ne : idx ≢ j =
                λ same. some_ne (rw (← same) (free_probe-free (i + 1) n idx rest)) q in
              let kept : get_elem? (set entries idx (some (job_id, address))) j ≡ some (some held) =
                get_elem?-set_ne entries idx j (some (job_id, address)) ne ∙ q in
              ground (
                arith,
                kept,
                get_elem?-LacksJob job_id entries j held l q,
                find_probe-own (i + 1) n l rest,
              )
        ]

    -- The probes for other jobs find what they found before.
    find_probe-other :
        (other i n : ℕ)
        → other ≢ job_id
        → get_elem? entries idx ≡ some none
        → find_probe (set entries idx (some (job_id, address))) capacity start other i n
          ≡ find_probe entries capacity start other i n
    unfolding find_probe
    find_probe-other other i zero ne free = refl
    find_probe-other other i (suc n) ne free =
        let j = (start + i) % capacity in
        let rest = find_probe-other other (i + 1) n ne free in
        elim (ℕ_discrete idx j) [
          | yes same ↦
              let put : get_elem? (set entries idx (some (job_id, address))) j
                  ≡ some (some (job_id, address)) =
                rw (← same) (get_elem?-set_self entries idx none (some (job_id, address)) free) in
              let was : get_elem? entries j ≡ some none = rw (← same) free in
              ground (arith, put, was, ne, rest)
          | no apart ↦
              let kept : get_elem? (set entries idx (some (job_id, address))) j
                  ≡ get_elem? entries j =
                get_elem?-set_ne entries idx j (some (job_id, address)) apart in
              elim (entry_cases (get_elem? entries j)) [
                | inl q ↦ ground (arith, kept ∙ q, q)
                | inr (inl q) ↦ ground (arith, kept ∙ q, q, rest)
                | inr (inr (held, q)) ↦ ground (arith, kept ∙ q, q, rest)
              ]
        ]

-- The channel that a successful `register` makes, and the registry after it.
abbrev pub fresh_channel : ℕ → Channel
fresh_channel job_id = record { job_id = job_id; events = []; ref_count = pos 1; closed = false }

abbrev pub registered : Registry → ℕ → ℕ → Registry
registered r job_id idx = record {
  heap = r.heap ++ (some (fresh_channel job_id) ∷ []);
  entries = set r.entries idx (some (job_id, length r.heap));
}

abbrev pub first_free : Registry → ℕ → Option ℕ
first_free r job_id =
    free_probe r.entries (length r.entries) (registry_index (length r.entries) job_id) 0
      (length r.entries)

module _ (r : Registry) (job_id : ℕ) (nz : job_id ≢ 0) where
  pub register-ok :
      (idx : ℕ)
      → first_free r job_id ≡ some idx
      → register true r job_id ≡ (some (length r.heap), registered r job_id idx)
  unfolding register
  register-ok idx free = ground (arith, nz, free)

  register-no_memory : register false r job_id ≡ (none, r)
  unfolding register
  register-no_memory = elim (Option-cases (first_free r job_id)) [
    | inl full ↦ ground (arith, nz, full)
    | inr (idx, free) ↦ ground (arith, nz, free)
  ]

  register-full : (ok : Bool) → first_free r job_id ≡ none → register ok r job_id ≡ (none, r)
  unfolding register
  register-full ok full = ground (arith, nz, full)

  pub find-registered :
      (idx : ℕ)
      → LacksJob job_id r.entries
      → first_free r job_id ≡ some idx
      → find (registered r job_id idx) job_id ≡ some (length r.heap)
  unfolding find
  find-registered idx lacks free =
      let own =
        find_probe-own r.entries (length r.entries) (registry_index (length r.entries) job_id) idx
          job_id (length r.heap) 0 (length r.entries) lacks free in
      rw (length-set r.entries idx (some (job_id, length r.heap))) (ground (arith, nz, own))

  find-registered_other :
      (idx other : ℕ)
      → other ≢ job_id
      → first_free r job_id ≡ some idx
      → find (registered r job_id idx) other ≡ find r other
  unfolding find
  find-registered_other idx other ne free =
      let same =
        find_probe-other r.entries (length r.entries) (registry_index (length r.entries) other) idx
          job_id (length r.heap) other 0 (length r.entries) ne
          (free_probe-free r.entries (length r.entries) (registry_index (length r.entries) job_id) 0
            (length r.entries) idx free) in
      rw (length-set r.entries idx (some (job_id, length r.heap))) (rw same refl)

-- What `register` answers.
abbrev pub IsRegistered : Registry → ℕ → Option ℕ × Registry → Type 0
IsRegistered r job_id (got, r') =
    (got ≡ some (length r.heap))
    × (find r' job_id ≡ some (length r.heap))
    × ((other : ℕ) → other ≢ job_id → find r' other ≡ find r other)

abbrev pub IsRefused : Bool → Registry → ℕ → Option ℕ × Registry → Type 0
IsRefused memory_ok r job_id (got, r') =
    (got ≡ none) × (r' ≡ r) × ((job_id ≡ 0) ⊎ (memory_ok ≡ false) ⊎ (first_free r job_id ≡ none))

register-zero : (ok : Bool) (r : Registry) → register ok r 0 ≡ (none, r)
unfolding register
register-zero ok r = refl

-- Registering a job that no entry holds gives a channel that a lookup of the job then finds, where
-- lookups of other jobs find what they found before, or fails and changes nothing; it fails for job
-- 0, without memory, or when no probe ends on a free entry.
pub register-find :
    (memory_ok : Bool) (r : Registry) (job_id : ℕ)
    → LacksJob job_id r.entries
    → IsRegistered r job_id (register memory_ok r job_id)
      ⊎ IsRefused memory_ok r job_id (register memory_ok r job_id)
register-find memory_ok r zero lacks = rw (register-zero memory_ok r) (inr (refl, refl, inl refl))
register-find memory_ok r (suc n) lacks =
    let nz : suc n ≢ 0 = omega arith in
    elim (Option-cases (first_free r (suc n))) [
      | inl full ↦ rw (register-full r (suc n) nz memory_ok full) (inr (refl, refl, inr (inr full)))
      | inr (idx, free) ↦ elim (Bool-cases memory_ok) [
        | inl ok ↦ rw ok (
            rw (register-ok r (suc n) nz idx free) (
              inl (
                refl,
                find-registered r (suc n) nz idx lacks free,
                λ other ne. find-registered_other r (suc n) nz idx other ne free,
              )))
        | inr no_memory ↦
            rw no_memory (rw (register-no_memory r (suc n) nz) (inr (refl, refl, inr (inl refl))))
      ]
    ]
