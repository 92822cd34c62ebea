-- ===== src/Endian.antt =====
-- muduo/net/Endian.h: integers in network byte order, as their bytes in memory.
use native.Mathlib.Nat.{pow-suc}
use mathlib.Core.List.{foldl, foldl-append}
use learn_muduo.Prelude.{
  ℕ, zero, suc, ◌+◌, ◌*◌, ◌/◌, ◌%◌, ◌^◌, ◌<◌, ◌≡◌, refl, List, [], ◌∷◌, ◌++◌, All, All-append,
  arith, length, length-append,
}

-- `hostToNetwork16/32/64`: the bytes that an integer of `width` bytes has in memory after the
-- conversion, the most significant first. A signed integer is given by its bit pattern.
unfoldable pub host_to_network : ℕ → ℕ → List ℕ
host_to_network zero x = []
host_to_network (suc width) x = host_to_network width (x / 256) ++ x % 256 ∷ []

-- `networkToHost16/32/64`: the integer whose bytes in network order are given.
unfoldable pub network_to_host : List ℕ → ℕ
network_to_host = foldl (λ acc c. acc * 256 + c) 0

pub network_to_host-snoc :
    (xs : List ℕ) (c : ℕ) → network_to_host (xs ++ c ∷ []) ≡ network_to_host xs * 256 + c
unfolding network_to_host
network_to_host-snoc xs c = foldl-append _ 0 xs (c ∷ [])

pub length-host_to_network : (width x : ℕ) → length (host_to_network width x) ≡ width
unfolding host_to_network
length-host_to_network zero x = refl
length-host_to_network (suc width) x = omega (
  arith,
  length-append (host_to_network width (x / 256)) (x % 256 ∷ []),
  length-host_to_network width (x / 256),
)

pub host_to_network-bytes : (width x : ℕ) → All (λ c. c < 256) (host_to_network width x)
unfolding host_to_network
host_to_network-bytes zero x = tt
host_to_network-bytes (suc width) x =
    All-append _ (host_to_network width (x / 256)) (x % 256 ∷ [])
      (host_to_network-bytes width (x / 256)) (omega arith, tt)

-- The two conversions are inverse on every integer that fits the width.
pub network_to_host-host_to_network :
    (width x : ℕ) → x < 256 ^ width → network_to_host (host_to_network width x) ≡ x
unfolding host_to_network
network_to_host-host_to_network zero x h = unfold network_to_host in omega arith
network_to_host-host_to_network (suc width) x h = omega (
  arith,
  network_to_host-snoc (host_to_network width (x / 256)) (x % 256),
  network_to_host-host_to_network width (x / 256) (omega (arith, pow-suc 256 width)),
)
