-- ===== src/Api.antt =====
-- internal/api: the HTTP handlers, from a decoded request to a response.
pub mod Response
pub mod TaskHandler
pub mod Limiter
pub mod AgentHandler
pub mod Auth
pub mod ArtifactHandler
pub mod Grouping
pub mod Dashboard
pub mod Server
pub mod Safety
pub mod Announcing
pub mod Claiming
pub mod Creating
pub mod Dispatching
pub mod Unblocking
pub mod Registering
pub mod Cleaning
pub mod Health
pub mod Service
pub mod Uploading
pub mod Deleting
