-- ===== src/Http/Context/Line.antt =====
-- muduo/net/http/HttpContext.cpp: `processRequestLine` on the request lines of the protocol.
use learn_muduo.Prelude.{
  ℕ, ◌+◌, ◌≡◌, ◌≢◌, refl, ap, true, false, List, [], ◌∷◌, ◌++◌, Option, none, some, arith, codes,
  length, Lacks, find_byte-append, find_byte-Lacks, length-append, take-append_left,
  drop-append_left, drop-append_cons, eq_bytes, append-nil, ne→==,
}
use learn_muduo.Http.Request.{
  HttpRequest, Method, Version, unknown, http10, http11, get, post, head, put, delete, method_of,
  is_invalid, set_method, method_string,
}
use learn_muduo.Http.Context.{set_target, set_http_version, process_target, process_request_line}

-- The query as it stands in a target, its '?' included.
abbrev pub query_text : Option (List ℕ) → List ℕ
query_text none = []
query_text (some q) = b'?' ∷ q

abbrev pub version_text : Version → List ℕ
version_text unknown = []
version_text http10 = codes "HTTP/1.0"
version_text http11 = codes "HTTP/1.1"

-- A request line of the protocol, without its "\r\n".
abbrev pub request_line : Method → List ℕ → Option (List ℕ) → Version → List ℕ
request_line m path query v =
    method_string m ++ b' ' ∷ ((path ++ query_text query) ++ b' ' ∷ version_text v)

set_http_version-text :
    (r : HttpRequest) (v : Version)
    → v ≢ unknown
    → set_http_version r (version_text v) ≡ (record r { version = v }, true)
unfolding set_http_version eq_bytes
set_http_version-text r unknown h = absurd (h refl)
set_http_version-text r http10 h = refl
set_http_version-text r http11 h = refl

set_target-text :
    (r : HttpRequest) (path : List ℕ) (query : Option (List ℕ))
    → r.query ≡ []
    → Lacks b'?' path
    → set_target r (path ++ query_text query) ≡ record r { path = path; query = query_text query }
set_target-text r path none e h =
    rw (append-nil path) (unfold set_target in ground (arith, find_byte-Lacks b'?' path h, e))
set_target-text r path (some q) e h =
    unfold set_target in
    rw (
      find_byte-append b'?' path q h,
      take-append_left (length path) path (b'?' ∷ q) refl,
      drop-append_left (length path) path (b'?' ∷ q) refl,
      ne→== (length path) (length (path ++ b'?' ∷ q))
          (omega (arith, length-append path (b'?' ∷ q))),
    )

pub method_of-string : (m : Method) → method_of (method_string m) ≡ m
unfolding method_of method_string eq_bytes
method_of-string get = refl
method_of-string post = refl
method_of-string head = refl
method_of-string put = refl
method_of-string delete = refl
method_of-string Method.invalid = refl

pub method_string-Lacks : (m : Method) → Lacks b' ' (method_string m)
unfolding method_string
method_string-Lacks m = elim m as (λ m. Lacks b' ' (method_string m)) [
  | get ↦ omega arith
  | post ↦ omega arith
  | head ↦ omega arith
  | put ↦ omega arith
  | delete ↦ omega arith
  | Method.invalid ↦ omega arith
]

process_target-text :
    (r : HttpRequest) (path : List ℕ) (query : Option (List ℕ)) (v : Version)
    → r.query ≡ []
    → Lacks b'?' path
    → Lacks b' ' (path ++ query_text query)
    → v ≢ unknown
    → process_target r ((path ++ query_text query) ++ b' ' ∷ version_text v)
      ≡ (record r { path = path; query = query_text query; version = v }, true)
process_target-text r path query v e h k known =
    let target = path ++ query_text query in
    unfold process_target in
    rw
      (
        find_byte-append b' ' target (version_text v) k,
        take-append_left (length target) target (b' ' ∷ version_text v) refl,
        drop-append_cons (length target + 1) target (version_text v) b' ' refl,
        ne→== (length target) (length (target ++ b' ' ∷ version_text v))
            (omega (arith, length-append target (b' ' ∷ version_text v))),
        set_target-text r path query e h,
      )
      (set_http_version-text _ v known)

pub is_invalid-known : (m : Method) → m ≢ Method.invalid → is_invalid m ≡ false
unfolding is_invalid
is_invalid-known Method.invalid h = absurd (h refl)
is_invalid-known m h = refl

-- A request line of the protocol is accepted, and its parts are stored: the method, the path, the
-- query with its '?', and the version.
pub process_request_line-text :
    (r : HttpRequest) (m : Method) (path : List ℕ) (query : Option (List ℕ)) (v : Version)
    → r.method ≡ Method.invalid
    → r.query ≡ []
    → m ≢ Method.invalid
    → Lacks b'?' path
    → Lacks b' ' (path ++ query_text query)
    → v ≢ unknown
    → process_request_line r (request_line m path query v)
      ≡ some (record r { method = m; path = path; query = query_text query; version = v }, true)
process_request_line-text r m path query v start e hm h k known =
    let rest = (path ++ query_text query) ++ b' ' ∷ version_text v in
    let name = method_string m in
    unfold process_request_line set_method in
    rw
      (
        find_byte-append b' ' name rest (method_string-Lacks m),
        take-append_left (length name) name (b' ' ∷ rest) refl,
        drop-append_cons (length name + 1) name rest b' ' refl,
        ne→== (length name) (length (name ++ b' ' ∷ rest))
            (omega (arith, length-append name (b' ' ∷ rest))),
        method_of-string m,
        is_invalid-known m hm,
        ap is_invalid start,
      )
      (unfold is_invalid in
        ap some (process_target-text (record r { method = m }) path query v e h k known))
