-- ===== src/Config.antt =====
-- internal/config/config.go. A nil *Config is `none`.
pub mod Load
pub mod Lists
use acb_go.Prelude.{
  String, Bool, true, false, not, ◌||◌, Option, none, some, List, [], ◌∷◌, ◌==◌, is_empty, filter,
}
use acb_go.Prelude.Int.{ℤ}

pub record Config : Type 0 where
  pub port : ℤ
  pub pg_host : String
  pub pg_port : ℤ
  pub pg_user : String
  pub pg_password : String
  pub pg_database : String
  pub redis_addr : String
  pub redis_pass : String
  pub rust_fs_endpoint : String
  pub rust_fs_bucket : String
  pub rust_fs_region : String
  pub rust_fs_access_key : String
  pub rust_fs_secret_key : String
  pub log_level : String
  pub artifact_ttl_days : ℤ
  pub max_upload_size_mb : ℤ
  pub pending_timeout_min : ℤ
  pub pending_timeout_check_sec : ℤ
  pub task_timeout_min : ℤ
  pub task_timeout_check_sec : ℤ
  pub agent_stale_min : ℤ
  pub agent_stale_check_sec : ℤ
  pub allowed_skills : List String
  pub allowed_tags : List String

-- The loop `for _, s := range list { if s == x { return true } }`.
unfoldable pub contains : List String → String → Bool
contains [] x = false
contains (s ∷ rest) x = s == x || contains rest x

unfoldable pub is_valid_skill : Option Config → String → Bool
is_valid_skill none skill = true
is_valid_skill (some c) skill = is_empty c.allowed_skills || contains c.allowed_skills skill

unfoldable pub validate_skills : Option Config → List String → List String
validate_skills c skills = filter (λ s. not (is_valid_skill c s)) skills

unfoldable pub is_valid_tag : Option Config → String → Bool
is_valid_tag none tag = true
is_valid_tag (some c) tag = is_empty c.allowed_tags || contains c.allowed_tags tag

unfoldable pub validate_tags : Option Config → List String → List String
validate_tags c tags = filter (λ t. not (is_valid_tag c t)) tags
