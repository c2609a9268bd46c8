-- ===== src/Api/Grouping.antt =====
-- groupTasksByStatus of internal/api/dashboard_handler.go.
use acb_go.Prelude.{List, [], ◌∷◌, ◌++◌}
use acb_go.Models.{Status, Task}

-- The map from a status to its tasks: the six keys of the literal, and no other is added, since the
-- tables hold no other status.
pub record Grouped : Type 0 where
  pub pending : List Task
  pub claimed : List Task
  pub in_progress : List Task
  pub blocked : List Task
  pub completed : List Task
  pub failed : List Task

-- grouped[s] = append(grouped[s], t), with "pending" for the empty status.
abbrev pub append_to : Status → Task → Grouped → Grouped
append_to Status.unset t g = record g { pending = g.pending ++ t ∷ [] }
append_to Status.pending t g = record g { pending = g.pending ++ t ∷ [] }
append_to Status.claimed t g = record g { claimed = g.claimed ++ t ∷ [] }
append_to Status.in_progress t g = record g { in_progress = g.in_progress ++ t ∷ [] }
append_to Status.blocked t g = record g { blocked = g.blocked ++ t ∷ [] }
append_to Status.completed t g = record g { completed = g.completed ++ t ∷ [] }
append_to Status.failed t g = record g { failed = g.failed ++ t ∷ [] }

unfoldable pub group_each : Grouped → List Task → Grouped
group_each g [] = g
group_each g (t ∷ ts) = group_each (append_to t.status t g) ts

abbrev pub no_tasks : Grouped
no_tasks = record {
  pending = [];
  claimed = [];
  in_progress = [];
  blocked = [];
  completed = [];
  failed = [];
}

unfoldable pub group_tasks_by_status : List Task → Grouped
group_tasks_by_status ts = group_each no_tasks ts
