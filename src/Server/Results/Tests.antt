-- ===== src/Server/Results/Tests.antt =====
-- Two jobs whose results pass through the queue and the cache.
use ferretptimize.Common.{ℕ, ◌≡◌, refl, arith, false, [], ◌∷◌, none, some}
use ferretptimize.Common.Int.{pos}
use ferretptimize.Common.Bytes.{codes}
use ferretptimize.Ferret.{JobResult}
use ferretptimize.Server.Results.{
  empty_cache, store, Shared, wait_round, wait_for_result, finished, rounds, happen, happen_all,
}
use ferretptimize.Server.Results.Waiting.{stolen, wait-finds}

abbrev result_of : ℕ → JobResult
result_of n = record {
  id = n;
  input_size = 10;
  outputs = [];
  output_count = 0;
  status = pos 0;
  message = codes "ok";
  input_width = 1;
  input_height = 1;
  output_width = 1;
  output_height = 1;
  trim_applied = false;
  crop_applied = false;
}

abbrev shared : Shared
shared = record { queue = result_of 4 ∷ []; cache = empty_cache }

-- The waiter for job 5 makes a round before the one for job 4, job 5 is finished, and both wait on.
stolen_example :
    ((happen shared (rounds 5)).0 ≡ none)
    × ((happen shared (rounds 5)).1.cache ≡ (store empty_cache (result_of 4)).1)
    × ((wait_round
          (happen_all
            (happen shared (rounds 5)).1
            (rounds 4 ∷ finished (result_of 5) ∷ rounds 5 ∷ []))
          4).0
        ≡ none)
stolen_example =
    stolen shared (result_of 4) [] 5 (rounds 4 ∷ finished (result_of 5) ∷ rounds 5 ∷ []) refl
      (omega arith) tt (tt, (omega arith, (tt, tt)))

wait-finds_example :
    let (found, s) =
      wait_for_result 2
        (record { queue = result_of 4 ∷ result_of 5 ∷ result_of 6 ∷ []; cache = empty_cache })
        5 in
    (found ≡ some (result_of 5)) × (s.queue ≡ result_of 6 ∷ [])
wait-finds_example =
    wait-finds (result_of 4 ∷ []) (result_of 6 ∷ []) (result_of 5) empty_cache tt (omega arith, tt)
