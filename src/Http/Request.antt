-- ===== src/Http/Request.antt =====
-- muduo/net/http/HttpRequest.h.
use learn_muduo.Prelude.{
  ℕ, ◌+◌, Bool, true, false, ◌&&◌, ◌||◌, not, List, [], ◌∷◌, Option, none, some, codes, take, drop,
  leb, ◌==◌, if◌then◌else◌, ◌>>◌, assert, eq_bytes, lookup, insert,
}

pub data Method : Type 0 where
  invalid get post head put delete : Method

pub data Version : Type 0 where
  unknown http10 http11 : Version

abbrev pub Headers : Type 0
Headers = List (List ℕ × List ℕ)

-- A time is its microseconds since the epoch.
pub record HttpRequest : Type 0 where
  pub method : Method
  pub version : Version
  pub path : List ℕ
  pub query : List ℕ
  pub receive_time : ℕ
  pub headers : Headers

abbrev pub empty_request : HttpRequest
empty_request = record {
  method = Method.invalid;
  version = unknown;
  path = [];
  query = [];
  receive_time = 0;
  headers = [];
}

unfoldable pub is_invalid : Method → Bool
is_invalid Method.invalid = true
is_invalid m = false

-- The method that a token names.
unfoldable pub method_of : List ℕ → Method
method_of m =
    if eq_bytes m (codes "GET")
    then get
    else if eq_bytes m (codes "POST")
    then post
    else if eq_bytes m (codes "HEAD")
    then head
    else if eq_bytes m (codes "PUT")
    then put
    else if eq_bytes m (codes "DELETE")
    then delete
    else Method.invalid

-- The assertion wants a request whose method was not set before.
unfoldable pub set_method : HttpRequest → List ℕ → Option (HttpRequest × Bool)
set_method r m = do
  assert (is_invalid r.method)
  let found = method_of m
  some (record r { method = found }, not (is_invalid found))

unfoldable pub method_string : Method → List ℕ
method_string get = codes "GET"
method_string post = codes "POST"
method_string head = codes "HEAD"
method_string put = codes "PUT"
method_string delete = codes "DELETE"
method_string Method.invalid = codes "UNKNOWN"

-- `isspace` in the C locale.
unfoldable pub is_space : ℕ → Bool
is_space c = c == b' ' || (leb 9 c && leb c 13)

unfoldable pub skip_spaces : List ℕ → List ℕ
skip_spaces [] = []
skip_spaces (c ∷ s) = if is_space c then skip_spaces s else c ∷ s

-- A byte in front of a trimmed text: it goes too if it is blank and nothing follows.
unfoldable pub keep_before : ℕ → List ℕ → List ℕ
unfolding is_space
keep_before c [] = if is_space c then [] else c ∷ []
keep_before c (d ∷ s) = c ∷ d ∷ s

-- `while (!value.empty() && isspace(value.back())) value.pop_back()`.
unfoldable pub trim_end : List ℕ → List ℕ
unfolding keep_before
trim_end [] = []
trim_end (c ∷ s) = keep_before c (trim_end s)

-- `addHeader(start, colon, end)` on the line from `start` to `end`, with the offset of the colon.
unfoldable pub add_header : HttpRequest → List ℕ → ℕ → HttpRequest
unfolding skip_spaces trim_end is_space
add_header r line colon = record r {
  headers = insert (take colon line) (trim_end (skip_spaces (drop (colon + 1) line))) r.headers;
}

-- A missing field gives the empty string.
unfoldable pub get_header : HttpRequest → List ℕ → List ℕ
get_header r field = elim (lookup field r.headers) [ none ↦ [] | some v ↦ v ]
