-- ===== src/RateLimit/Tests.antt =====
-- Runs of the limiter, and its theorems at concrete inputs: one token is 10 units, the burst is two
-- tokens, and five units flow in at each tick.
use skr_crypto.Prelude.{◌+◌, ◌*◌, ◌≤◌, true, [], ◌∷◌, ◌≡◌, none, refl, arith}
use skr_crypto.RateLimit.{Params, make_params, check_sqlite, check_memory, check_record, sweep_idle}
use skr_crypto.RateLimit.Buckets.{Key, Table, ip, token, find, put}
use skr_crypto.RateLimit.Bounds.{check_sqlite-eq-check_memory, admitted_after_wait}
use skr_crypto.RateLimit.Admitted.{asks, sweeps, admitted, admitted_le}

abbrev params : Params
params = record { capacity = 2; refill = 5 }

abbrev alice : Key
alice = record { key_type = ip; key_value = "10.0.0.1" }

abbrev bob : Key
bob = record { key_type = token; key_value = "tok_bob" }

abbrev drained : Table
drained = (alice, record { tokens = 3; updated_at = 100 }) ∷ []

-- The third request of a burst is refused, and another caller is not touched.
burst :
    admitted 10 alice params
      (asks alice 7 ∷ asks alice 7 ∷ asks bob 7 ∷ asks alice 7 ∷ asks alice 9 ∷ [])
      []
    ≡ 3
unfolding admitted check_memory check_record find put
burst = refl

-- A sweep that is too early for the refill gives a caller more than a full bucket and the inflow.
early_sweep :
    admitted 10 alice params
      (asks alice 7 ∷ asks alice 7 ∷ sweeps 0 8 ∷ asks alice 8 ∷ asks alice 8 ∷ [])
      []
    ≡ 4
unfolding admitted check_memory check_record find put sweep_idle skr_crypto.RateLimit.Buckets.kept
early_sweep = refl

no_capacity : make_params 0 5 ≡ none
unfolding make_params
no_capacity = refl

check_sqlite-eq-check_memory_example :
    check_sqlite 10 alice params 101 drained ≡ check_memory 10 alice params 101 drained
check_sqlite-eq-check_memory_example =
    check_sqlite-eq-check_memory 10 alice params 101 drained (omega arith)

admitted_le_example :
    admitted 10 alice params
        (asks alice 107 ∷ sweeps 6 108 ∷ asks bob 108 ∷ asks alice 109 ∷ [])
        drained
      * 10
    ≤ 2 * 10 + 2 * 5
unfolding find
admitted_le_example =
    admitted_le 10 alice params 107
      (asks alice 107 ∷ sweeps 6 108 ∷ asks bob 108 ∷ asks alice 109 ∷ []) drained (omega arith)
      (refl, tt) (omega arith, (omega arith, (omega arith, (omega arith, tt))))
      (tt, (omega arith, (tt, (tt, tt))))

admitted_after_wait_example : (check_memory 10 alice params 102 drained).0 ≡ true
unfolding find
admitted_after_wait_example =
    admitted_after_wait 10 alice params 102 drained (record { tokens = 3; updated_at = 100 })
      (omega arith) refl (omega arith)
