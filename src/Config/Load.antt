-- ===== src/Config/Load.antt =====
-- Load of internal/config/config.go; `getenv` is os.Getenv. strconv.Atoi, strings.Split and
-- strings.TrimSpace are written out.
use Prim.Native.Char.{Char, code}
use acb_go.Prelude.{
  ℕ, ◌+◌, ◌-◌, ◌*◌, String, Bool, ◌&&◌, ◌||◌, Option, none, some, List, [], ◌∷◌, ◌==◌, eqb, leb,
  ltb, if◌then◌else◌,
}
use acb_go.Prelude.Int.{ℤ, pos, negsuc}
use acb_go.Config.{Config}

unfoldable pub get_env : (getenv : String → String) → (key fallback : String) → String
get_env getenv key fallback = let v = getenv key in if v == "" then fallback else v

-- The value of a text of digits, after those that were read.
unfoldable pub read_digits : ℕ → String → Option ℕ
read_digits n String.[] = some n
read_digits n (String.◌∷◌ c s) =
    let rest = read_digits (n * 10 + (code c - 48)) s in
    if leb 48 (code c) && leb (code c) 57 then rest else none

abbrev pub digits : String → Option ℕ
digits String.[] = none
digits (String.◌∷◌ c s) = read_digits 0 (String.◌∷◌ c s)

-- The values of an int of 64 bits.
abbrev pub positive : Option ℕ → Option ℤ
positive none = none
positive (some n) = if ltb n 9223372036854775808 then some (pos n) else none

abbrev pub negative : Option ℕ → Option ℤ
negative none = none
negative (some n) =
    if eqb n 0
    then some (pos 0)
    else if leb n 9223372036854775808
    then some (negsuc (n - 1))
    else none

unfoldable pub atoi : String → Option ℤ
atoi String.[] = none
atoi (String.◌∷◌ c s) =
    if eqb (code c) b'-'
    then negative (digits s)
    else if eqb (code c) b'+'
    then positive (digits s)
    else positive (digits (String.◌∷◌ c s))

abbrev pub or_int : ℤ → Option ℤ → ℤ
or_int fallback none = fallback
or_int fallback (some i) = i

unfoldable pub get_env_int : (getenv : String → String) → (key : String) → (fallback : ℤ) → ℤ
get_env_int getenv key fallback =
    let v = getenv key in if v == "" then fallback else or_int fallback (atoi v)

-- unicode.IsSpace.
unfoldable pub is_space : Char → Bool
is_space c =
    let n = code c in
    (leb 9 n && leb n 13)
    || (eqb n 32
        || (eqb n 133
            || (eqb n 160
                || (eqb n 5760
                    || ((leb 8192 n && leb n 8202)
                        || (eqb n 8232
                            || (eqb n 8233 || (eqb n 8239 || (eqb n 8287 || eqb n 12288)))))))))

unfoldable pub trim_left : String → String
trim_left String.[] = ""
trim_left (String.◌∷◌ c s) = let rest = trim_left s in if is_space c then rest else String.◌∷◌ c s

-- A character in front of a text whose end is trimmed.
abbrev pub before : Char → String → String
before c String.[] = if is_space c then "" else String.◌∷◌ c ""
before c (String.◌∷◌ d s) = String.◌∷◌ c (String.◌∷◌ d s)

unfoldable pub trim_right : String → String
trim_right String.[] = ""
trim_right (String.◌∷◌ c s) = before c (trim_right s)

unfoldable pub trim_space : String → String
trim_space s = trim_left (trim_right s)

-- A character in front of the first part.
abbrev pub onto : Char → List String → List String
onto c [] = String.◌∷◌ c "" ∷ []
onto c (p ∷ ps) = String.◌∷◌ c p ∷ ps

-- strings.Split(s, ",").
unfoldable pub split_commas : String → List String
split_commas String.[] = "" ∷ []
split_commas (String.◌∷◌ c s) =
    let rest = split_commas s in if eqb (code c) b',' then "" ∷ rest else onto c rest

-- The loop over the parts.
unfoldable pub clean_parts : List String → List String
clean_parts [] = []
clean_parts (p ∷ ps) =
    let rest = clean_parts ps in let q = trim_space p in if q == "" then rest else q ∷ rest

unfoldable pub get_env_list : (getenv : String → String) → (key fallback : String) → List String
get_env_list getenv key fallback =
    let v = get_env getenv key fallback in if v == "" then [] else clean_parts (split_commas v)

unfoldable pub load : (getenv : String → String) → Config
load getenv = record {
  port = get_env_int getenv "ACB_PORT" (pos 8090);
  pg_host = get_env getenv "ACB_PG_HOST" "localhost";
  pg_port = get_env_int getenv "ACB_PG_PORT" (pos 5433);
  pg_user = get_env getenv "ACB_PG_USER" "acb";
  pg_password = get_env getenv "ACB_PG_PASSWORD" "";
  pg_database = get_env getenv "ACB_PG_DATABASE" "acb";
  redis_addr = get_env getenv "ACB_REDIS_ADDR" "localhost:6379";
  redis_pass = get_env getenv "ACB_REDIS_PASS" "";
  rust_fs_endpoint = get_env getenv "ACB_RUSTFS_ENDPOINT" "localhost:8085";
  rust_fs_bucket = get_env getenv "ACB_RUSTFS_BUCKET" "acb-artifacts";
  rust_fs_region = get_env getenv "ACB_RUSTFS_REGION" (get_env getenv "RUSTFS_REGION" "us-east-1");
  rust_fs_access_key = get_env getenv "RUSTFS_ACCESS_KEY_ID" "";
  rust_fs_secret_key = get_env getenv "RUSTFS_SECRET_ACCESS_KEY" "";
  log_level = get_env getenv "ACB_LOG_LEVEL" "info";
  artifact_ttl_days = get_env_int getenv "ACB_ARTIFACT_TTL_DAYS" (pos 30);
  max_upload_size_mb = get_env_int getenv "ACB_MAX_UPLOAD_SIZE_MB" (pos 32);
  pending_timeout_min = get_env_int getenv "ACB_PENDING_TIMEOUT_MIN" (pos 15);
  pending_timeout_check_sec = get_env_int getenv "ACB_PENDING_TIMEOUT_CHECK_SEC" (pos 60);
  task_timeout_min = get_env_int getenv "ACB_TASK_TIMEOUT_MIN" (pos 30);
  task_timeout_check_sec = get_env_int getenv "ACB_TASK_TIMEOUT_CHECK_SEC" (pos 60);
  agent_stale_min = get_env_int getenv "ACB_AGENT_STALE_MIN" (pos 10);
  agent_stale_check_sec = get_env_int getenv "ACB_AGENT_STALE_CHECK_SEC" (pos 60);
  allowed_skills =
      get_env_list getenv "ACB_ALLOWED_SKILLS"
        "coding,review,testing,architecture,devops,security,infra,debugging,documentation,osint,hacking,forensics,go,python,orchestration,dispatch,management";
  allowed_tags = get_env_list getenv "ACB_ALLOWED_TAGS" "";
}
