-- ===== src/Tests/Sources.antt =====
-- A TimeoutSource of 20 milliseconds, and a query that is answered with 9 and then 2 entries.
use glibmm.Base.{
  ℕ, suc, ◌≡◌, ◌≤◌, refl, true, false, zero, List, [], ◌∷◌, ok, some, arith, replicate,
}
use glibmm.MainLoop.Timeouts.{TimeoutSource, Prepared, prepare}
use glibmm.MainLoop.Timeouts.Waiting.{IsPrepared, prepare-IsPrepared, prepare-ready}
use glibmm.MainLoop.Query.{query, query-stable}

abbrev twenty : TimeoutSource
twenty = record { expiration = 1020500; interval = 20 }

abbrev waiting : Prepared
waiting = record { source = twenty; timeout = 19; ready = false }

prepare-IsPrepared_example :
    (p : Prepared) × (prepare twenty 1001000 1001003 ≡ ok p) × IsPrepared twenty 1001000 1001003 p
prepare-IsPrepared_example =
    prepare-IsPrepared twenty 1001000 1001003 (omega arith) (omega arith) (omega arith)

prepare-waiting : prepare twenty 1001000 1001003 ≡ ok waiting
unfolding prepare
prepare-waiting = refl

prepare-ready_example : (q : Prepared) × (prepare twenty 1020003 1020004 ≡ ok q) × (q.ready ≡ true)
prepare-ready_example =
    prepare-ready twenty 1001000 1001003 1020003 1020004 waiting (omega arith) (omega arith)
      (omega arith) prepare-waiting (omega arith) (omega arith)

abbrev answer : ℕ → List ℕ
answer n = elim n [ zero ↦ replicate 9 5 | suc _ ↦ 6 ∷ 7 ∷ [] ]

query-stable_example : (j : ℕ) × (j ≤ 1) × (query ℕ 0 answer 2 [] ≡ some (answer j))
query-stable_example = query-stable ℕ 0 answer [] 0 (omega arith)
