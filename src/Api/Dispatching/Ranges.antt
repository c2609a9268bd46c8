-- ===== src/Api/Dispatching/Ranges.antt =====
-- Which addresses isPrivateIP of internal/dispatcher/validator.go blocks.
use Prim.Native.Nat.{◌/◌}
use acb_go.Prelude.{
  ℕ, ◌<◌, ◌≡◌, refl, Bool, true, false, ◌&&◌, ◌||◌, some, List, [], ◌∷◌, eqb, leb, ltb,
  if◌then◌else◌, arith,
}
use acb_go.Api.Dispatching.Addresses.{is_private_ip, contains_ip, shortened}

-- The first two bytes of an address of a blocked network.
abbrev pub is_internal : ℕ → ℕ → Bool
is_internal a b =
    (eqb 10 a || ((eqb 172 a && (leb 16 b && ltb b 32)) || ((eqb 192 a && eqb 168 b) || eqb 0 a)))
    || (eqb 127 a || (eqb 169 a && eqb 254 b))

or_if : (x y : Bool) → (if x then true else y) ≡ x || y
or_if true y = refl
or_if false y = refl

and_true : (x : Bool) → x && true ≡ x
and_true true = refl
and_true false = refl

and_false : (x : Bool) → x && false ≡ false
and_false true = refl
and_false false = refl

or_false : (x : Bool) → x || false ≡ x
or_false true = refl
or_false false = refl

abbrev pub mapped : (a b c d : ℕ) → List ℕ
mapped a b c d = 0 ∷ 0 ∷ 0 ∷ 0 ∷ 0 ∷ 0 ∷ 0 ∷ 0 ∷ 0 ∷ 0 ∷ 255 ∷ 255 ∷ a ∷ b ∷ c ∷ d ∷ []

any_byte : (b : ℕ) → b < 256 → eqb 0 (b / 256) ≡ true
any_byte b l = ground arith

high_nibble : (b : ℕ) → b < 256 → eqb 1 (b / 16) ≡ leb 16 b && ltb b 32
high_nibble b l = ground arith

over_one : (b : ℕ) → b / 1 ≡ b
over_one b = omega arith

four_bytes :
    (a b c d : ℕ)
    → b < 256
    → c < 256
    → d < 256
    → is_private_ip (some (a ∷ b ∷ c ∷ d ∷ [])) ≡ is_internal a b
unfolding is_private_ip contains_ip shortened
four_bytes a b c d lb lc ld =
    rw (any_byte b lb, any_byte c lc, any_byte d ld, high_nibble b lb, over_one a, over_one b)
      (simp (or_if, and_true, and_false, or_false))

-- An IPv4 address of four bytes is blocked exactly if its first two bytes are those of an address in
-- 10.0.0.0/8, 172.16.0.0/12, 192.168.0.0/16, 0.0.0.0/8, 127.0.0.0/8 or 169.254.0.0/16, and so is the
-- same address written in sixteen bytes, as an IPv6 address.
pub is_private_ip-is_internal :
    (a b c d : ℕ)
    → a < 256
    → b < 256
    → c < 256
    → d < 256
    → (is_private_ip (some (a ∷ b ∷ c ∷ d ∷ [])) ≡ is_internal a b)
      × (is_private_ip (some (mapped a b c d)) ≡ is_internal a b)
unfolding is_private_ip contains_ip shortened
is_private_ip-is_internal a b c d la lb lc ld =
    (four_bytes a b c d lb lc ld, four_bytes a b c d lb lc ld)
