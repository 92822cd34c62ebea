-- ===== src/TcpServer/Names.antt =====
-- muduo/net/TcpServer.cpp: the names of connections differ.
use learn_muduo.Prelude.{
  ℕ, ◌^◌, ◌≤◌, ◌<◌, ◌≡◌, ◌∙◌, refl, sym, ap, List, ◌++◌, arith, length, length-append, codes,
  decimal, decimal_value, decimal_value-decimal, length-decimal, snprintf, snprintf-fits, drop,
  drop-append_left,
}
use learn_muduo.TcpServer.{conn_name}

-- A common front can be taken away.
append_cancel : (xs ys zs : List ℕ) → xs ++ ys ≡ xs ++ zs → ys ≡ zs
append_cancel xs ys zs e =
    sym (drop-append_left (length xs) xs ys refl)
    ∙ ap (λ l. drop (length xs) l) e
    ∙ drop-append_left (length xs) xs zs refl

-- An address and a port have at most 51 characters, so that a number of 31 bits fits behind them.
abbrev pub max_ip_port : ℕ
max_ip_port = 51

suffix : List ℕ → ℕ → List ℕ
suffix ip_port conn_id = codes "-" ++ (ip_port ++ (codes "#" ++ decimal conn_id))

suffix-fits :
    (ip_port : List ℕ) (conn_id : ℕ)
    → length ip_port ≤ max_ip_port
    → conn_id < 2 ^ 31
    → snprintf 64 (suffix ip_port conn_id) ≡ suffix ip_port conn_id
unfolding suffix
suffix-fits ip_port conn_id short small =
    let digits : length (decimal conn_id) ≤ 10 = length-decimal conn_id 9 (omega (arith, small)) in
    snprintf-fits 64 (codes "-" ++ (ip_port ++ (codes "#" ++ decimal conn_id))) (
      omega (
        arith,
        short,
        digits,
        length-append (codes "-") (ip_port ++ (codes "#" ++ decimal conn_id)),
        length-append ip_port (codes "#" ++ decimal conn_id),
        length-append (codes "#") (decimal conn_id),
      ))

-- Two connections of a server have the same name only if they have the same number.
pub conn_name-injective :
    (name ip_port : List ℕ) (i j : ℕ)
    → length ip_port ≤ max_ip_port
    → i < 2 ^ 31
    → j < 2 ^ 31
    → conn_name name ip_port i ≡ conn_name name ip_port j
    → i ≡ j
unfolding conn_name suffix
conn_name-injective name ip_port i j short si sj e =
    let same =
      sym (suffix-fits ip_port i short si)
      ∙ append_cancel name (snprintf 64 (suffix ip_port i)) (snprintf 64 (suffix ip_port j)) e
      ∙ suffix-fits ip_port j short sj in
    let behind = append_cancel ip_port (codes "#" ++ decimal i) (codes "#" ++ decimal j) (
      append_cancel (codes "-") (ip_port ++ (codes "#" ++ decimal i))
        (ip_port ++ (codes "#" ++ decimal j)) same) in
    sym (decimal_value-decimal i)
    ∙ ap decimal_value (append_cancel (codes "#") (decimal i) (decimal j) behind)
    ∙ decimal_value-decimal j
