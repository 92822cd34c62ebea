-- ===== src/Connector/Backoff.antt =====
-- muduo/net/Connector.cpp: the delays between the attempts to connect.
use learn_muduo.Prelude.{
  ℕ, suc, ◌*◌, ◌^◌, ◌≡◌, ◌∙◌, refl, ap, ap₂, min, Bool, true, List, [], ◌∷◌, ◌++◌, arith,
  if◌then◌else◌,
}
use native.Mathlib.Nat.{pow-suc}
use learn_muduo.Connector.{
  Connector, retry, Effect, closes, starts_after, disconnected, max_retry_delay_ms,
  init_retry_delay_ms,
}

-- Attempts that fail one behind another, each on its own socket.
unfoldable pub retries : List ℕ → Connector → Connector × List Effect
retries [] c = (c, [])
retries (sockfd ∷ fds) c =
    let (c', effects) = retry c sockfd in let (c'', rest) = retries fds c' in (c'', effects ++ rest)

-- The delay behind `n` failures.
abbrev pub delay : ℕ → ℕ
delay n = min (init_retry_delay_ms * 2 ^ n) max_retry_delay_ms

-- What the attempts leave, the first of them behind `n` failures.
abbrev pub expected : ℕ → List ℕ → List Effect
expected n [] = []
expected n (sockfd ∷ fds) = closes sockfd ∷ starts_after (delay n) ∷ expected (suc n) fds

failed : Connector → Connector
failed c = record c {
  state = disconnected;
  retry_delay_ms = min (c.retry_delay_ms * 2) max_retry_delay_ms;
}

retry-asked :
    (c : Connector) (sockfd : ℕ)
    → c.connect_asked ≡ true
    → retry c sockfd ≡ (failed c, closes sockfd ∷ starts_after c.retry_delay_ms ∷ [])
unfolding retry failed
retry-asked c sockfd asked =
    ap
      (λ (b : Bool).
        if b
        then (failed c, closes sockfd ∷ starts_after c.retry_delay_ms ∷ [])
        else (record c { state = disconnected }, closes sockfd ∷ []))
      asked

-- A connector that is asked to connect and has the delay of `n` failures in a row closes the socket
-- of each further failure and starts again after 500 ms times 2 to the number of failures, but at
-- most 30 s.
pub retries-expected :
    (fds : List ℕ) (n : ℕ) (c : Connector)
    → c.connect_asked ≡ true
    → c.retry_delay_ms ≡ delay n
    → (retries fds c).1 ≡ expected n fds
unfolding retries failed
retries-expected [] n c asked d = refl
retries-expected (sockfd ∷ fds) n c asked d =
    ap (λ r. r.1 ++ (retries fds r.0).1) (retry-asked c sockfd asked)
    ∙ ap₂ (λ ms rest. closes sockfd ∷ starts_after ms ∷ rest) d
        (retries-expected fds (suc n) (failed c) asked (omega (arith, d, pow-suc 2 n)))
