-- ===== src/Server/Usage/Tests.antt =====
-- The quota at concrete tables.
use ferretptimize.Common.{◌≡◌, inl, refl, arith, [], ◌∷◌, List}
use ferretptimize.Server.Usage.{Entry, track, charge_slot, charge, job_limit}
use ferretptimize.Server.Usage.Quota.{usage, IsValid, Tracked, track_lem}

-- User 7 has used 499 jobs of day 20000; the second entry is from the day before.
abbrev table : List Entry
table =
    record { user_id = 7; day = 20000; jobs = 499; bytes = 10 }
    ∷ record { user_id = 9; day = 19999; jobs = 500; bytes = 0 }
    ∷ []

over_limit : (track table 7 20000 2 5).0 ≡ job_limit
unfolding track charge_slot charge
over_limit = refl

taken_over : usage (track table 9 20000 2 5).1 9 20000 ≡ (2, 5)
unfolding track charge_slot charge
taken_over = refl

table-IsValid : IsValid 20000 table
table-IsValid = (
  omega arith,
  inl (refl, omega arith, ((λ p. absurd (omega (arith, p))), tt), (omega arith, ground arith)),
)

track_lem_example :
    Tracked 20000 7 2 5 (omega arith) (omega arith) (omega arith) table (track table 7 20000 2 5)
track_lem_example =
    track_lem 20000 7 2 5 (omega arith) (omega arith) (omega arith) table table-IsValid
