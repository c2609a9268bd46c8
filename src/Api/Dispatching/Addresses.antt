-- ===== src/Api/Dispatching/Addresses.antt =====
-- isPrivateIP of internal/dispatcher/validator.go. An address is its bytes: four, or sixteen.
use Prim.Native.Nat.{◌/◌, ◌^◌}
use acb_go.Prelude.{
  ℕ, ◌-◌, Bool, true, false, ◌&&◌, Option, none, some, List, [], ◌∷◌, eqb, zero, suc, length,
  if◌then◌else◌,
}

-- A net.IPNet with the mask net.CIDRMask(ones, 8 * len(ip)).
pub record IpNet : Type 0 where
  pub ip : List ℕ
  pub ones : ℕ

-- The comparison of net.IPNet.Contains, byte by byte under the mask; a length that differs fails.
abbrev pub agrees : (ones : ℕ) → List ℕ → List ℕ → Bool
agrees ones [] [] = true
agrees ones [] (b ∷ bs) = false
agrees ones (n ∷ ns) [] = false
agrees ones (n ∷ ns) (b ∷ bs) =
    eqb (n / 2 ^ (8 - ones)) (b / 2 ^ (8 - ones)) && agrees (ones - 8) ns bs

-- The bytes after ten zeros and two bytes 255, which mark an IPv4 address in sixteen bytes.
abbrev pub unmapped : (zeros : ℕ) → List ℕ → Option (List ℕ)
unmapped zero (x ∷ y ∷ bs) = if eqb x 255 && eqb y 255 then some bs else none
unmapped zero bs = none
unmapped (suc n) (b ∷ bs) = let rest = unmapped n bs in if eqb b 0 then rest else none
unmapped (suc n) [] = none

-- net.IP.To4, or the address itself.
unfoldable pub shortened : List ℕ → List ℕ
shortened bs = if eqb (length bs) 16 then elim (unmapped 10 bs) [ none ↦ bs | some v4 ↦ v4 ] else bs

unfoldable pub contains_ip : IpNet → List ℕ → Bool
contains_ip n bs = agrees n.ones n.ip (shortened bs)

abbrev pub any_contains : List IpNet → List ℕ → Bool
any_contains [] bs = false
any_contains (n ∷ ns) bs = let rest = any_contains ns bs in if contains_ip n bs then true else rest

abbrev pub v4_net : (a b ones : ℕ) → IpNet
v4_net a b ones = record { ip = a ∷ b ∷ 0 ∷ 0 ∷ []; ones = ones }

abbrev pub v6_net : (a b last ones : ℕ) → IpNet
v6_net a b last ones = record {
  ip = a ∷ b ∷ 0 ∷ 0 ∷ 0 ∷ 0 ∷ 0 ∷ 0 ∷ 0 ∷ 0 ∷ 0 ∷ 0 ∷ 0 ∷ 0 ∷ 0 ∷ last ∷ [];
  ones = ones;
}

abbrev pub private_networks : List IpNet
private_networks = v4_net 10 0 8 ∷ v4_net 172 16 12 ∷ v4_net 192 168 16 ∷ v4_net 0 0 8 ∷ []

abbrev pub deny_ranges : List IpNet
deny_ranges =
    v4_net 127 0 8
    ∷ v4_net 169 254 16
    ∷ v6_net 252 0 0 7
    ∷ v6_net 254 128 0 10
    ∷ v6_net 0 0 1 128
    ∷ []

unfoldable pub is_private_ip : Option (List ℕ) → Bool
is_private_ip none = true
is_private_ip (some bs) =
    if any_contains private_networks bs then true else any_contains deny_ranges bs
