-- ===== src/Api/Dispatching/Pins.antt =====
-- What a URL that passes ValidateWebhookURL of internal/dispatcher/validator.go is like, and what the
-- cache does for the next check.
use acb_go.Prelude.{
  ℕ, ◌+◌, ◌<◌, String, ◌≡◌, ◌≢◌, refl, true, false, Option, none, some, List, [], ◌∷◌, ◌==◌, eq_iff,
  arith, All, Bool-cases, Option-cases, inl, inr, ◌⊎◌,
}
use acb_go.Api.Dispatching.Addresses.{is_private_ip}
use acb_go.Api.Dispatching.Urls.{
  Ip, Url, Net, DnsPinCache, fresh, get_pin, set_pin, check_ips, pin_ttl, check_host,
  is_allowed_scheme, validated, validate_webhook_url,
}

all_public :
    (host : String) (ips : List Ip)
    → check_ips host ips ≡ none
    → All (λ ip. is_private_ip ip ≡ false) ips
unfolding check_ips
all_public host [] h = tt
all_public host (ip ∷ rest) h = elim (Bool-cases (is_private_ip ip)) [
  | inl b ↦ ground arith
  | inr b ↦ (b, all_public host rest (ground arith))
]

get_pin-set_pin :
    (c : DnsPinCache) (host : String) (ips : List Ip) (expires now : ℕ)
    → get_pin (set_pin c host ips expires) host now
      ≡ fresh now (record { host = host; ips = ips; expires = expires })
unfolding get_pin set_pin
get_pin-set_pin [] host ips expires now = ground (arith, eq_iff host host)
get_pin-set_pin (p ∷ rest) host ips expires now =
    ground (arith, eq_iff host host, eq_iff p.host host, get_pin-set_pin rest host ips expires now)

-- The addresses that a check looks at: the pinned ones, or those of the resolver.
abbrev pub Looks : Net → ℕ → DnsPinCache → String → List Ip → Type 0
Looks n now c host ips =
    (get_pin c host now ≡ some ips)
    ⊎ ((get_pin c host now ≡ none) × (n.lookup_ip_addr host ≡ some ips))

pub record Passes (n : Net) (now : ℕ) (c : DnsPinCache) (raw : String) : Type 0 where
  pub url : Url
  pub parsed : n.parse_url raw ≡ some url
  pub scheme_allowed : is_allowed_scheme n url.scheme ≡ true
  pub has_host : url.host ≢ ""
  pub ips : List Ip
  pub looked_up : Looks n now c url.host ips
  pub public : All (λ ip. is_private_ip ip ≡ false) ips

host_passes :
    (n : Net) (now : ℕ) (c : DnsPinCache) (host : String)
    → (check_host n now c host).0 ≡ none
    → (ips : List Ip) × Looks n now c host ips × All (λ ip. is_private_ip ip ≡ false) ips
unfolding check_host
host_passes n now c host h = elim (Option-cases (get_pin c host now)) [
  | inr (ips, g) ↦ (ips, inl g, all_public host ips (ground arith))
  | inl g ↦ elim (Option-cases (n.lookup_ip_addr host)) [
    | inl l ↦ ground arith
    | inr (ips, l) ↦ (ips, inr (g, l), all_public host ips (ground arith))
  ]
]

parsed_url :
    (n : Net) (now : ℕ) (c : DnsPinCache) (raw : String) (o : Option Url)
    → n.parse_url raw ≡ o
    → (validated n now c o).0 ≡ none
    → Passes n now c raw
parsed_url n now c raw none p h = absurd (ground (arith, h))
parsed_url n now c raw (some u) p h = elim (Bool-cases (is_allowed_scheme n u.scheme)) [
  | inr b ↦ absurd (ground (arith, h))
  | inl b ↦ elim (Bool-cases (u.host == "")) [
    | inl m ↦ absurd (ground (arith, h))
    | inr m ↦
        let (ips, l, a) = host_passes n now c u.host (ground arith) in
        record {
          url = u;
          parsed = p;
          scheme_allowed = b;
          has_host = ground (arith, eq_iff u.host "");
          ips = ips;
          looked_up = l;
          public = a;
        }
  ]
]

-- A URL passes only if it is a URL, its scheme is https, or http where that is allowed, it has a host,
-- and none of the addresses of the host is private; these are the pinned addresses if the cache has
-- some, and otherwise those that the resolver gives.
pub validate_webhook_url-Passes :
    (n : Net) (now : ℕ) (c : DnsPinCache) (raw : String)
    → (validate_webhook_url n now c raw).0 ≡ none
    → Passes n now c raw
unfolding validate_webhook_url
validate_webhook_url-Passes n now c raw h = parsed_url n now c raw (n.parse_url raw) refl h

-- After a check that asked the resolver and passed, every check of the URL in the next five minutes
-- passes with the addresses of the first and leaves the cache alone, whatever the resolver would answer
-- by then: a name that is bound to another address meanwhile is not looked up again.
pub pins_hold :
    (n n' : Net) (now now' : ℕ) (c : DnsPinCache) (raw : String) (u : Url) (ip : Ip) (ips : List Ip)
    → n.parse_url raw ≡ some u
    → n'.parse_url raw ≡ some u
    → n'.allow_http_env ≡ n.allow_http_env
    → get_pin c u.host now ≡ none
    → n.lookup_ip_addr u.host ≡ some (ip ∷ ips)
    → (validate_webhook_url n now c raw).0 ≡ none
    → now' < now + pin_ttl
    → validate_webhook_url n' now' (validate_webhook_url n now c raw).1 raw
      ≡ (none, (validate_webhook_url n now c raw).1)
unfolding validate_webhook_url check_host
pins_hold n n' now now' c raw u ip ips p p' a g l h t =
    let x = get_pin-set_pin c u.host (ip ∷ ips) (now + pin_ttl) now' in ground (arith, x)
