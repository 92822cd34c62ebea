-- ===== src/Buffer/Queue.antt =====
-- A byte queue as the specification of muduo/net/Buffer.h: every run of its calls does to the content
-- what the specification says, and fails exactly where the specification does.
use learn_muduo.Prelude.{
  ℕ, ◌+◌, ◌-◌, ◌^◌, ◌<◌, ◌≡◌, ◌∙◌, ap, refl, Bool, true, false, List, [], ◌∷◌, ◌++◌, Option, none,
  some, ◌>>=◌, arith, length, take, drop, leb, ltb, leb→le, ltb→lt, lt→ltb, subst, if◌then◌else◌,
  replicate, length-replicate, length-take, drop-all,
}
use learn_muduo.Buffer.{
  Buffer, IsValid, content, readable_bytes, Received, append, retrieve, retrieve_all, unwrite,
  take_received, shrink, to_string_piece, init, initial_size, cheap_prepend,
}
use learn_muduo.Buffer.Content.{length-content}
use learn_muduo.Buffer.Space.{
  Holds, append-Holds, retrieve-Holds, retrieve_all-Holds, unwrite-Holds,
  ensure_writable_bytes-Fits,
}
use learn_muduo.Buffer.ReadFd.{received_bytes, take_received-Holds}

pub init-Holds : (size : ℕ) → Holds [] (init size)
unfolding init
init-Holds size = record {
  valid = record {
    ordered = omega arith;
    inside = omega (arith, length-replicate {A = ℕ} (cheap_prepend + size) 0);
    large = omega (arith, length-replicate {A = ℕ} (cheap_prepend + size) 0);
  };
  same =
      drop-all cheap_prepend (take cheap_prepend (replicate (cheap_prepend + size) 0))
        (omega (arith, length-take {A = ℕ} cheap_prepend (replicate (cheap_prepend + size) 0)));
}

-- `shrink` moves the content to a new buffer, whatever the reserve.
pub shrink-Holds :
    (b : Buffer) (reserve : ℕ)
    → IsValid b
    → readable_bytes b < 2 ^ 31
    → (b' : Buffer) × (shrink b reserve ≡ some b') × Holds (content b) b'
shrink-Holds b reserve v small =
    let fresh = init-Holds initial_size in
    let (other, made, fits) =
      ensure_writable_bytes-Fits (init initial_size) (readable_bytes b + reserve) fresh.valid in
    let (b', copied, holds) = append-Holds other (content b) fits.valid in
    (
      b',
      unfold shrink to_string_piece in rw (made, lt→ltb _ _ small) copied,
      record {
        valid = holds.valid;
        same = holds.same ∙ ap (λ ys. ys ++ content b) (fits.same ∙ fresh.same);
      },
    )

-- The calls that a client makes.
pub data Call : Type 0 where
  appends : List ℕ → Call
  retrieves : ℕ → Call
  retrieves_all : Call
  unwrites : ℕ → Call
  receives : Received → Call
  shrinks : ℕ → Call

pub step : Call → Buffer → Option Buffer
step (appends xs) b = append b xs
step (retrieves n) b = retrieve b n
step retrieves_all b = some (retrieve_all b)
step (unwrites n) b = unwrite b n
step (receives r) b = take_received b r
step (shrinks reserve) b = shrink b reserve

pub run : List Call → Buffer → Option Buffer
run [] b = some b
run (c ∷ cs) b = do b' ← step c b; run cs b'

-- The specification: the same calls on a plain list.
pub spec_step : Call → List ℕ → Option (List ℕ)
spec_step (appends ys) xs = some (xs ++ ys)
spec_step (retrieves n) xs = if leb n (length xs) then some (drop n xs) else none
spec_step retrieves_all xs = some []
spec_step (unwrites n) xs = if leb n (length xs) then some (take (length xs - n) xs) else none
spec_step (receives r) xs = some (xs ++ received_bytes r)
spec_step (shrinks reserve) xs = if ltb (length xs) (2 ^ 31) then some xs else none

pub spec_run : List Call → List ℕ → Option (List ℕ)
spec_run [] xs = some xs
spec_run (c ∷ cs) xs = do ys ← spec_step c xs; spec_run cs ys

-- Both fail, or the buffer holds what the specification says.
abbrev pub Refines : Option Buffer → Option (List ℕ) → Type 0
Refines none none = Unit {0}
Refines none (some xs) = ⊥
Refines (some b) none = ⊥
Refines (some b) (some xs) = Holds xs b

Refines-some :
    (o : Option Buffer) (xs : List ℕ)
    → (b : Buffer) × (o ≡ some b) × Holds xs b
    → Refines o (some xs)
Refines-some o xs (b, e, h) = rw e h

guarded :
    (o : Option Buffer) (t : Bool) (xs : List ℕ)
    → (t ≡ true → (b : Buffer) × (o ≡ some b) × Holds xs b)
    → (t ≡ false → o ≡ none)
    → Refines o (if t then some xs else none)
guarded o true xs yes' no' = Refines-some o xs (yes' refl)
guarded o false xs yes' no' = rw (no' refl) tt

retrieve_refused : (b : Buffer) (n : ℕ) → leb n (readable_bytes b) ≡ false → retrieve b n ≡ none
unfolding retrieve
retrieve_refused b n e = rw e

unwrite_refused : (b : Buffer) (n : ℕ) → leb n (readable_bytes b) ≡ false → unwrite b n ≡ none
unfolding unwrite
unwrite_refused b n e = rw e

shrink_refused :
    (b : Buffer) (n : ℕ) → IsValid b → ltb (readable_bytes b) (2 ^ 31) ≡ false → shrink b n ≡ none
shrink_refused b n v e =
    let (other, made, fits) =
      ensure_writable_bytes-Fits (init initial_size) (readable_bytes b + n)
        (init-Holds initial_size).valid in
    unfold shrink to_string_piece in rw (made, e)

step-Refines : (c : Call) (b : Buffer) → IsValid b → Refines (step c b) (spec_step c (content b))
unfolding step spec_step
step-Refines (appends ys) b v = Refines-some _ _ (append-Holds b ys v)
step-Refines (retrieves n) b v = rw (length-content b v) (
    guarded (retrieve b n) (leb n (readable_bytes b)) (drop n (content b))
      (λ e. retrieve-Holds b n v (leb→le _ _ e)) (retrieve_refused b n))
step-Refines retrieves_all b v = retrieve_all-Holds b v
step-Refines (unwrites n) b v = rw (length-content b v) (
    guarded (unwrite b n) (leb n (readable_bytes b)) (take (readable_bytes b - n) (content b))
      (λ e. unwrite-Holds b n v (leb→le _ _ e)) (unwrite_refused b n))
step-Refines (receives r) b v = Refines-some _ _ (take_received-Holds b r v)
step-Refines (shrinks n) b v = rw (length-content b v) (
    guarded (shrink b n) (ltb (readable_bytes b) (2 ^ 31)) (content b)
      (λ e. shrink-Holds b n v (ltb→lt _ _ e)) (shrink_refused b n v))

run-bind :
    (cs : List Call) (o : Option Buffer) (s : Option (List ℕ))
    → Refines o s
    → ((b : Buffer) → IsValid b → Refines (run cs b) (spec_run cs (content b)))
    → Refines (o >>= run cs) (s >>= spec_run cs)
run-bind cs none none r ih = tt
run-bind cs none (some xs) r ih = elim r [ ]
run-bind cs (some b) none r ih = elim r [ ]
run-bind cs (some b) (some xs) r ih =
    subst (λ ys. Refines (run cs b) (spec_run cs ys)) r.same (ih b r.valid)

-- Any run of calls on a valid buffer fails exactly where the same calls fail on the list of its
-- content, and otherwise ends in a valid buffer whose content is the list that they end in.
pub run-Refines :
    (cs : List Call) (b : Buffer) → IsValid b → Refines (run cs b) (spec_run cs (content b))
unfolding run spec_run
run-Refines [] b v = record { valid = v; same = refl }
run-Refines (c ∷ cs) b v =
    run-bind cs (step c b) (spec_step c (content b)) (step-Refines c b v) (run-Refines cs)
