-- ===== src/Acceptor/Sockets.antt =====
-- muduo/net/Acceptor.cpp: what becomes of the descriptors.
use learn_muduo.Prelude.{
  ℕ, ◌+◌, ◌≡◌, refl, inl, inr, Bool, List, [], ◌∷◌, ◌++◌, Option, none, some, ◌==◌, if◌then◌else◌,
  Bool-cases, arith,
}
use learn_muduo.Acceptor.{
  Acceptor, Effect, opens, closes, passes, Accepted, accepted, too_many_files, other_error,
  closes_if, opens_if, handle_read,
}

abbrev one_if : Bool → ℕ
one_if b = if b then 1 else 0

abbrev opened_by : ℕ → Effect → ℕ
opened_by fd (opens g) = one_if (g == fd)
opened_by fd e = 0

abbrev released_by : ℕ → Effect → ℕ
released_by fd (closes g) = one_if (g == fd)
released_by fd (passes g) = one_if (g == fd)
released_by fd e = 0

-- How often a descriptor was opened, and how often it was closed or handed to the callback.
abbrev pub opened : ℕ → List Effect → ℕ
opened fd [] = 0
opened fd (e ∷ es) = opened_by fd e + opened fd es

abbrev pub released : ℕ → List Effect → ℕ
released fd [] = 0
released fd (e ∷ es) = released_by fd e + released fd es

-- The descriptor in reserve.
abbrev pub idle : ℕ → Option ℕ → ℕ
idle fd none = 0
idle fd (some g) = one_if (g == fd)

opened-append : (fd : ℕ) (xs ys : List Effect) → opened fd (xs ++ ys) ≡ opened fd xs + opened fd ys
opened-append fd [] ys = omega arith
opened-append fd (x ∷ xs) ys = omega (arith, opened-append fd xs ys)

released-append :
    (fd : ℕ) (xs ys : List Effect) → released fd (xs ++ ys) ≡ released fd xs + released fd ys
released-append fd [] ys = omega arith
released-append fd (x ∷ xs) ys = omega (arith, released-append fd xs ys)

closed :
    (fd : ℕ) (o : Option ℕ)
    → (released fd (closes_if o) ≡ idle fd o) × (opened fd (closes_if o) ≡ 0)
closed fd none = (refl, refl)
closed fd (some g) = (omega arith, omega arith)

made :
    (fd : ℕ) (o : Option ℕ) → (opened fd (opens_if o) ≡ idle fd o) × (released fd (opens_if o) ≡ 0)
made fd none = (refl, refl)
made fd (some g) = (omega arith, omega arith)

read-Balances :
    (fd : ℕ) (a : Acceptor) (answer : Accepted) (second reopened : Option ℕ)
    → idle fd a.idle_fd + opened fd (handle_read a answer second reopened).1
      ≡ released fd (handle_read a answer second reopened).1
        + idle fd (handle_read a answer second reopened).0.idle_fd
unfolding handle_read
read-Balances fd a (accepted g) second reopened = elim (Bool-cases a.has_callback) [
  | inl set ↦ rw set (omega arith)
  | inr unset ↦ rw unset (omega arith)
]
read-Balances fd a too_many_files second reopened =
    let (c1, o1) = closed fd a.idle_fd in
    let (c2, o2) = closed fd second in
    let (o3, c3) = made fd second in
    let (o4, c4) = made fd reopened in
    omega (
      arith,
      c1,
      o1,
      c2,
      o2,
      o3,
      c3,
      o4,
      c4,
      opened-append fd (closes_if a.idle_fd)
          (opens_if second ++ (closes_if second ++ opens_if reopened)),
      opened-append fd (opens_if second) (closes_if second ++ opens_if reopened),
      opened-append fd (closes_if second) (opens_if reopened),
      released-append fd (closes_if a.idle_fd)
          (opens_if second ++ (closes_if second ++ opens_if reopened)),
      released-append fd (opens_if second) (closes_if second ++ opens_if reopened),
      released-append fd (closes_if second) (opens_if reopened),
    )
read-Balances fd a other_error second reopened = omega arith

-- The answers to the calls of one `handleRead`.
pub record Answers : Type 0 where
  pub answer : Accepted
  pub second : Option ℕ
  pub reopened : Option ℕ

unfoldable pub handle_reads : List Answers → Acceptor → Acceptor × List Effect
handle_reads [] a = (a, [])
handle_reads (w ∷ ws) a =
    let (a', first) = handle_read a w.answer w.second w.reopened in
    let (a'', later) = handle_reads ws a' in (a'', first ++ later)

-- Whatever accept and open answer in a series of reads, errors and the lack of descriptors included,
-- and with or without a callback: each descriptor that was in reserve or was opened is closed once, or
-- handed to the callback once, or is in reserve behind them.
pub handle_reads-balance :
    (fd : ℕ) (ws : List Answers) (a : Acceptor)
    → idle fd a.idle_fd + opened fd (handle_reads ws a).1
      ≡ released fd (handle_reads ws a).1 + idle fd (handle_reads ws a).0.idle_fd
unfolding handle_reads
handle_reads-balance fd [] a = omega arith
handle_reads-balance fd (w ∷ ws) a =
    let r = handle_read a w.answer w.second w.reopened in
    omega (
      arith,
      read-Balances fd a w.answer w.second w.reopened,
      handle_reads-balance fd ws r.0,
      opened-append fd r.1 (handle_reads ws r.0).1,
      released-append fd r.1 (handle_reads ws r.0).1,
    )
