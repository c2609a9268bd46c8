-- ===== src/Api/Dispatching.antt =====
-- internal/dispatcher: the choice of the next task, the webhooks with their URLs, and the retry queues.
pub mod Choice
pub mod Next
pub mod Retries
pub mod Outcomes
pub mod Draining
pub mod Bounds
pub mod Addresses
pub mod Ranges
pub mod Urls
pub mod Pins
pub mod Webhooks
pub mod Recipients
pub mod Queue
