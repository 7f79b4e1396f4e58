-- ===== src/Server/Usage/Quota.antt =====
-- The table as a map from users to what they used today, and the quota that it enforces.
use ferretptimize.Common.{
  ℕ, zero, suc, ◌+◌, ◌^◌, ◌≤◌, ◌<◌, ◌≡◌, ◌∙◌, sym, ap, ◌≢◌, ◌⊎◌, inl, inr, refl, false, ◌&&◌, List,
  [], ◌∷◌, ltb, ◌==◌, if◌then◌else◌, All, arith, replicate,
}
use ferretptimize.Server.Usage.{
  Entry, unused, initial, max_daily_jobs, max_daily_bytes, table_size, Verdict, allowed,
  server_busy, job_limit, byte_limit, charge, charge_slot, track,
}
use native.Mathlib.Decide.{ℕ_discrete}

-- What a user used on a day: the jobs and the bytes.
abbrev pub usage : List Entry → ℕ → ℕ → ℕ × ℕ
usage [] user today = (0, 0)
usage (e ∷ es) user today =
    if e.user_id == user && e.day == today then (e.jobs, e.bytes) else usage es user today

abbrev IsFine : Entry → Type 0
IsFine e = (e.jobs ≤ max_daily_jobs) × (e.bytes ≤ max_daily_bytes)

module _ (today : ℕ) where
  abbrev IsStale : List Entry → Type 0
  IsStale es = All (λ e. IsFine e × (e.day < today)) es

  abbrev IsAbsent : ℕ → List Entry → Type 0
  IsAbsent user es = All (λ e. e.user_id ≡ user → e.day < today) es

  -- The entries of today stand first, one for each user, each within the quota; the rest are of
  -- days before.
  abbrev pub IsValid : List Entry → Type 0
  IsValid [] = Unit
  IsValid (e ∷ es) =
      IsFine e
      × ((e.day ≡ today) × (e.user_id ≢ 0) × IsAbsent e.user_id es × IsValid es
          ⊎ (e.day < today) × IsStale es)

  usage-IsStale : (es : List Entry) (user : ℕ) → IsStale es → usage es user today ≡ (0, 0)
  usage-IsStale [] user h = refl
  usage-IsStale (e ∷ es) user h = ground (arith, usage-IsStale es user h.1)

  usage-IsAbsent : (es : List Entry) (user : ℕ) → IsAbsent user es → usage es user today ≡ (0, 0)
  usage-IsAbsent [] user h = refl
  usage-IsAbsent (e ∷ es) user h =
      let head : (e.user_id == user && e.day == today) ≡ false = elim (ℕ_discrete e.user_id user) [
        | yes p ↦ let q : e.day < today = h.0 p in ground arith
        | no p ↦ ground arith
      ] in
      rw head (usage-IsAbsent es user h.1)

  IsAbsent-IsStale : (es : List Entry) (user : ℕ) → IsStale es → IsAbsent user es
  IsAbsent-IsStale [] user h = tt
  IsAbsent-IsStale (e ∷ es) user h = ((λ _. h.0.1), IsAbsent-IsStale es user h.1)

  IsValid-IsStale : (es : List Entry) → IsStale es → IsValid es
  IsValid-IsStale [] h = tt
  IsValid-IsStale (e ∷ es) h = (h.0.0, inr (h.0.1, h.1))

  -- `usage` of a list whose head is not the user's entry of today.
  usage_other :
      (e : Entry) (es : List Entry) (user : ℕ)
      → ((e.user_id ≢ user) ⊎ (e.day < today))
      → usage (e ∷ es) user today ≡ usage es user today
  usage_other e es user h = ground arith

  usage_mine :
      (e : Entry) (es : List Entry) (user : ℕ)
      → e.user_id ≡ user
      → e.day ≡ today
      → usage (e ∷ es) user today ≡ (e.jobs, e.bytes)
  usage_mine e es user h k = ground arith

module _ (today user files total : ℕ) (named : user ≢ 0) (few : files < 2 ^ 63)
    (small : total < 2 ^ 63) where
  abbrev call : List Entry → Verdict × List Entry
  call es = charge_slot es user today files total

  -- The verdict that the usage before the call asks for, and the usage after it.
  abbrev pub decide : ℕ × ℕ → Verdict
  decide (jobs, bytes) =
      if ltb max_daily_jobs (jobs + files)
      then job_limit
      else if ltb max_daily_bytes (bytes + total)
      then byte_limit
      else allowed

  abbrev pub after : Verdict → ℕ × ℕ → ℕ × ℕ
  after allowed (jobs, bytes) = (jobs + files, bytes + total)
  after _ u = u

  charge_lem :
      (e : Entry)
      → IsFine e
      → let (v, e') = charge e files total in
        (v ≡ decide (e.jobs, e.bytes))
        × ((e'.jobs, e'.bytes) ≡ after v (e.jobs, e.bytes))
        × (e'.user_id ≡ e.user_id)
        × (e'.day ≡ e.day)
        × IsFine e'
  unfolding charge
  charge_lem e h = ground arith

  -- A slot of the user's own, or one that may be taken over.
  abbrev anew : Entry
  anew = record { user_id = user; day = today; jobs = 0; bytes = 0 }

  call_mine :
      (e : Entry) (es : List Entry)
      → e.user_id ≡ user
      → e.day ≡ today
      → call (e ∷ es) ≡ ((charge e files total).0, (charge e files total).1 ∷ es)
  unfolding charge_slot
  call_mine e es h k = ground arith

  call_stale :
      (e : Entry) (es : List Entry)
      → e.day < today
      → call (e ∷ es) ≡ ((charge anew files total).0, (charge anew files total).1 ∷ es)
  unfolding charge_slot
  call_stale e es h = ground arith

  call_other :
      (e : Entry) (es : List Entry)
      → e.user_id ≢ user
      → e.user_id ≢ 0
      → e.day ≡ today
      → call (e ∷ es) ≡ ((call es).0, e ∷ (call es).1)
  unfolding charge_slot
  call_other e es h nz k = ground arith

  call-IsAbsent :
      (es : List Entry) (u : ℕ)
      → u ≢ user
      → IsValid today es
      → IsAbsent today u es
      → IsAbsent today u (call es).1
  call-IsAbsent [] u ne v h = unfold charge_slot in tt
  call-IsAbsent (e ∷ es) u ne (fine, inr (old, stale)) h =
      rw (call_stale e es old)
        ((λ p. absurd (ne (omega (arith, p, (charge_lem anew (omega arith)).2)))), h.1)
  call-IsAbsent (e ∷ es) u ne (fine, inl (now, nz, absent, rest)) h =
      elim (ℕ_discrete e.user_id user) [
        | yes p ↦
            rw (call_mine e es p now)
              ((λ q. absurd (ne (omega (arith, p, q, (charge_lem e fine).2)))), h.1)
        | no p ↦ rw (call_other e es p nz now) (h.0, call-IsAbsent es u ne rest h.1)
      ]

  pub record Tracked (es : List Entry) (out : Verdict × List Entry) : Type 0 where
    pub valid : IsValid today out.1
    pub verdict :
        (out.0 ≡ server_busy) × All (λ e. (e.day ≡ today) × (e.user_id ≢ user)) es
        ⊎ (out.0 ≡ decide (usage es user today))
    pub mine : usage out.1 user today ≡ after out.0 (usage es user today)
    pub others : (u : ℕ) → u ≢ user → usage out.1 u today ≡ usage es u today

  call-Tracked : (es : List Entry) → IsValid today es → Tracked es (call es)
  call-Tracked [] v =
      unfold charge_slot in
      record { valid = tt; verdict = inl (refl, tt); mine = refl; others = λ u ne. refl }
  call-Tracked (e ∷ es) (fine, inr (old, stale)) =
      let (dec, next, same_user, same_day, fine') = charge_lem anew (omega arith) in
      let e' = (charge anew files total).1 in
      rw (call_stale e es old) record {
        valid = (
          fine',
          inl (
            same_day,
            (λ p. named (omega (arith, p, same_user))),
            IsAbsent-IsStale today es (charge anew files total).1.user_id stale,
            IsValid-IsStale today es stale,
          ),
        );
        verdict =
            inr (rw (usage_other today e es user (inr old), usage-IsStale today es user stale) dec);
        mine =
            usage_mine today e' es user same_user same_day
            ∙ next
            ∙ ap (after (charge anew files total).0)
                (sym (usage_other today e es user (inr old) ∙ usage-IsStale today es user stale));
        others = λ u ne.
            usage_other today e' es u (inl (λ p. ne (omega (arith, p, same_user))))
            ∙ sym (usage_other today e es u (inr old));
      }
  call-Tracked (e ∷ es) (fine, inl (now, nz, absent, rest)) = elim (ℕ_discrete e.user_id user) [
    | yes p ↦
        let (dec, next, same_user, same_day, fine') = charge_lem e fine in
        let e' = (charge e files total).1 in
        rw (call_mine e es p now) record {
          valid = (
            fine',
            inl (
              same_day ∙ now,
              (λ q. nz (omega (arith, q, same_user))),
              rw same_user absent,
              rest,
            ),
          );
          verdict = inr (rw (usage_mine today e es user p now) dec);
          mine =
              usage_mine today e' es user (same_user ∙ p) (same_day ∙ now)
              ∙ next
              ∙ ap (after (charge e files total).0) (sym (usage_mine today e es user p now));
          others = λ u ne.
              usage_other today e' es u (inl (λ q. ne (omega (arith, p, q, same_user))))
              ∙ sym (usage_other today e es u (inl (λ q. ne (omega (arith, p, q)))));
        }
    | no p ↦
        let t = call-Tracked es rest in
        rw (call_other e es p nz now) record {
          valid = (fine, inl (now, nz, call-IsAbsent es e.user_id p rest absent, t.valid));
          verdict = elim t.verdict [
            | inl (busy, full) ↦ inl (busy, ((now, p), full))
            | inr d ↦ inr (d ∙ ap decide (sym (usage_other today e es user (inl p))))
          ];
          mine =
              usage_other today e (call es).1 user (inl p)
              ∙ t.mine
              ∙ ap (after (call es).0) (sym (usage_other today e es user (inl p)));
          others = λ u ne. elim (ℕ_discrete e.user_id u) [
            | yes q ↦ usage_mine today e (call es).1 u q now ∙ sym (usage_mine today e es u q now)
            | no q ↦
                usage_other today e (call es).1 u (inl q)
                ∙ t.others u ne
                ∙ sym (usage_other today e es u (inl q))
          ];
        }
  ]

  -- On a valid table a call of a user other than 0 gives the verdict that the user's usage of today
  -- asks for, or finds all entries taken by others today; it adds the files and bytes to that usage
  -- exactly when it is allowed, leaves every other user's usage alone, and keeps the table valid, so
  -- no usage of today exceeds the quota.
  pub track_lem :
      (table : List Entry)
      → IsValid today table
      → Tracked table (track table user today files total)
  unfolding track
  track_lem table v =
      let other : (user == 0) ≡ false = ground arith in rw other (call-Tracked table v)

module _ (today later : ℕ) (next : today < later) where
  IsStale-later : (es : List Entry) → IsStale today es → IsStale later es
  IsStale-later [] h = tt
  IsStale-later (e ∷ es) h = ((h.0.0, omega (arith, h.0.1)), IsStale-later es h.1)

  pub IsValid-later : (es : List Entry) → IsValid today es → IsStale later es
  IsValid-later [] h = tt
  IsValid-later (e ∷ es) (fine, inl (now, nz, absent, rest)) =
      ((fine, omega arith), IsValid-later es rest)
  IsValid-later (e ∷ es) (fine, inr (old, stale)) = ((fine, omega arith), IsStale-later es stale)

unused-IsValid : (n today : ℕ) → 0 < today → IsStale today (replicate n unused)
unused-IsValid zero today h = tt
unused-IsValid (suc n) today h = ((omega arith, h), unused-IsValid n today h)

-- The table at the start is valid on every day but day 0, and a table that is valid on one day is
-- valid on every later day, when nobody has used anything yet.
pub table_days :
    (today later : ℕ) (table : List Entry)
    → 0 < today
    → today < later
    → IsValid today table
    → IsValid today initial × IsValid later table × ((user : ℕ) → usage table user later ≡ (0, 0))
table_days today later table pos_day next v =
    let stale = IsValid-later today later next table v in
    (
      IsValid-IsStale today initial (unused-IsValid table_size today pos_day),
      IsValid-IsStale later table stale,
      λ user. usage-IsStale later table user stale,
    )
