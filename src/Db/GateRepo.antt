-- ===== src/Db/GateRepo.antt =====
-- internal/db/gate_repo.go.
use acb_go.Prelude.{String, Option, List, ◌==◌, eqb, if◌then◌else◌, filter}
use acb_go.Models.{GateStatus, is_gate, Gate}
use acb_go.Db.Rows.{find}
use acb_go.Db.Statement.{
  insert_gate, update_gate, GateUpdate, ask_gate as ask, answer_gate as answer,
  resolve_gate as resolve,
}
use acb_go.Session.{M, wrong_gate_status, pure, throw, exec, query, ◌>>=◌}

unfoldable pub create_gate : Gate → M (Unit {0})
create_gate g = do
  let gate = record g {
    status = if is_gate g.status GateStatus.unset then GateStatus.pending else g.status;
  }
  n ← exec (insert_gate gate)
  pure tt

unfoldable pub get_by_task_id : String → M (List Gate)
get_by_task_id id = query (λ now s. filter (λ g. g.task_id == id) s.gates)

unfoldable pub get_gate_by_id : String → M (Option Gate)
get_gate_by_id id = query (λ now s. find Gate.gate_id id s.gates)

-- An update that affects no row is an error, which names the status that was wanted.
unfoldable pub move_gate : GateUpdate → String → GateStatus → M (Unit {0})
move_gate u id wanted = do
  n ← exec (update_gate u)
  if eqb n 0 then throw (wrong_gate_status id wanted) else pure tt

unfoldable pub answer_gate : String → String → M (Unit {0})
answer_gate id text = move_gate (answer id text) id GateStatus.asked

unfoldable pub ask_gate : String → String → M (Unit {0})
ask_gate id text = move_gate (ask id text) id GateStatus.pending

unfoldable pub resolve_gate : String → M (Unit {0})
resolve_gate id = move_gate (resolve id) id GateStatus.answered
