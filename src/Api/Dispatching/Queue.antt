-- ===== src/Api/Dispatching/Queue.antt =====
-- One retry queue of internal/dispatcher/dispatcher.go under its goroutines. enqueueRetry sends two
-- commands to Redis, LTRIM and then RPUSH, and the loop over the queue sends LPOP; each command is atomic,
-- and the goroutines interleave between them.
pub mod Overlap
use acb_go.Prelude.{ℕ, zero, suc, ◌-◌, ◌≤◌, ◌≡◌, Option, none, some, List, [], ◌∷◌, ◌++◌}
use acb_go.Api.Dispatching.Retries.{keep_last, max_retry_queue_size}

-- The list in Redis, and how many calls of enqueueRetry are between their two commands.
pub record Queue (Json : Type 0) : Type 0 where
  pub entries : List Json
  pub halfway : ℕ

abbrev pub empty_queue : (Json : Type 0) → Queue Json
empty_queue Json = record { entries = []; halfway = 0 }

pub data Command (Json : Type 0) : Type 0 where
  trim pop : Command Json
  push : Json → Command Json

module _ {Json : Type 0} where
  abbrev pub popped : List Json → List Json
  popped [] = []
  popped (d ∷ q) = q

  -- A push belongs to a call that has trimmed.
  abbrev pub pushed : ℕ → Json → List Json → Option (Queue Json)
  pushed zero d q = none
  pushed (suc n) d q = some (record { entries = q ++ d ∷ []; halfway = n })

  unfoldable pub execute : Command Json → Queue Json → Option (Queue Json)
  execute trim q =
      some (record {
        entries = keep_last (max_retry_queue_size - 1) q.entries;
        halfway = suc q.halfway;
      })
  execute pop q = some (record q { entries = popped q.entries })
  execute (push d) q = pushed q.halfway d q.entries

  -- What the goroutines can do, at most `m` of them in enqueueRetry at a time.
  pub data Interleaves (m : ℕ) (q : Queue Json) : Queue Json → Type 0 where
    stay : Interleaves m q q
    after :
        {r s : Queue Json}
        → Interleaves m q r
        → (c : Command Json) → execute c r ≡ some s
        → s.halfway ≤ m
        → Interleaves m q s
