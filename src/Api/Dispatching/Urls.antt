-- ===== src/Api/Dispatching/Urls.antt =====
-- ValidateWebhookURL and its cache in internal/dispatcher/validator.go. The parser of URLs, the
-- resolver and the variable ACB_ALLOW_HTTP_WEBHOOKS are parameters.
use acb_go.Prelude.{
  ℕ, ◌+◌, String, Bool, true, false, ◌&&◌, ◌||◌, Option, none, some, List, [], ◌∷◌, ◌==◌, ltb,
  is_empty, if◌then◌else◌,
}
use acb_go.Api.Dispatching.Addresses.{is_private_ip}

-- A net.IP; nil is `none`.
abbrev pub Ip : Type 0
Ip = Option (List ℕ)

-- The scheme in small letters, and the host without its port.
pub record Url : Type 0 where
  pub scheme : String
  pub host : String

pub record Net : Type 0 where
  pub parse_url : String → Option Url
  pub lookup_ip_addr : String → Option (List Ip)
  pub allow_http_env : String

pub record Pin : Type 0 where
  pub host : String
  pub ips : List Ip
  pub expires : ℕ

abbrev pub DnsPinCache : Type 0
DnsPinCache = List Pin

-- Get: an entry whose time is over, or without addresses, is as good as none.
abbrev pub fresh : ℕ → Pin → Option (List Ip)
fresh now p =
    if ltb now p.expires && (if is_empty p.ips then false else true) then some p.ips else none

unfoldable pub get_pin : DnsPinCache → String → ℕ → Option (List Ip)
get_pin [] host now = none
get_pin (p ∷ rest) host now = if p.host == host then fresh now p else get_pin rest host now

unfoldable pub set_pin : DnsPinCache → String → List Ip → (expires : ℕ) → DnsPinCache
set_pin [] host ips expires = record { host = host; ips = ips; expires = expires } ∷ []
set_pin (p ∷ rest) host ips expires =
    if p.host == host
    then record { host = host; ips = ips; expires = expires } ∷ rest
    else p ∷ set_pin rest host ips expires

pub data UrlError : Type 0 where
  not_a_url : UrlError
  wrong_scheme : (scheme : String) → UrlError
  no_host : UrlError
  dns_failed : UrlError
  ssrf : (host : String) → Ip → UrlError

-- The loop over the addresses, up to the first private one.
unfoldable pub check_ips : String → List Ip → Option UrlError
check_ips host [] = none
check_ips host (ip ∷ rest) =
    let others = check_ips host rest in if is_private_ip ip then some (ssrf host ip) else others

abbrev pub pin_ttl : ℕ
pin_ttl = 300000000

abbrev pub resolved :
    Option (List Ip) → (now : ℕ) → DnsPinCache → String → Option UrlError × DnsPinCache
resolved none now c host = (some dns_failed, c)
resolved (some ips) now c host = (check_ips host ips, set_pin c host ips (now + pin_ttl))

-- From the cache on.
unfoldable pub check_host : Net → (now : ℕ) → DnsPinCache → String → Option UrlError × DnsPinCache
check_host n now c host = elim (get_pin c host now) [
  | some ips ↦ (check_ips host ips, c)
  | none ↦ resolved (n.lookup_ip_addr host) now c host
]

abbrev pub is_allowed_scheme : Net → String → Bool
is_allowed_scheme n scheme = scheme == "https" || (scheme == "http" && n.allow_http_env == "1")

abbrev pub validated : Net → (now : ℕ) → DnsPinCache → Option Url → Option UrlError × DnsPinCache
validated n now c none = (some not_a_url, c)
validated n now c (some u) =
    if is_allowed_scheme n u.scheme
    then if u.host == "" then (some no_host, c) else check_host n now c u.host
    else (some (wrong_scheme u.scheme), c)

unfoldable pub validate_webhook_url :
    Net → (now : ℕ) → DnsPinCache → (raw_url : String) → Option UrlError × DnsPinCache
validate_webhook_url n now c raw_url = validated n now c (n.parse_url raw_url)
