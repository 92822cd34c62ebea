-- ===== src/Connector/Tests.antt =====
-- muduo/net/Connector.cpp: the theorems at a fresh connector.
use learn_muduo.Prelude.{◌≡◌, refl, true, ◌∷◌, [], none}
use learn_muduo.Connector.{Connector, disconnected, conn_refused}
use learn_muduo.Connector.Backoff.{retries, expected, retries-expected}
use learn_muduo.Connector.Sockets.{OnResult, Balances, step, starts_in_loop, step-Balances}

abbrev asked : Connector
asked = record { connect_asked = true; state = disconnected; channel = none; retry_delay_ms = 500 }

retries-expected_example : (retries (7 ∷ 8 ∷ 7 ∷ []) asked).1 ≡ expected 0 (7 ∷ 8 ∷ 7 ∷ [])
retries-expected_example = retries-expected (7 ∷ 8 ∷ 7 ∷ []) 0 asked refl refl

step-Balances_example : OnResult (Balances 7 asked) (step (starts_in_loop 7 conn_refused) asked)
step-Balances_example = step-Balances 7 (starts_in_loop 7 conn_refused) asked tt
