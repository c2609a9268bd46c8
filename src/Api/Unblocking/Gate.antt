-- ===== src/Api/Unblocking/Gate.antt =====
-- ResolveGate of internal/db/gate_repo.go, run alone.
use acb_go.Prelude.{
  String, ◌≡◌, refl, true, false, none, some, List, arith, Option-cases, Bool-cases, inl, inr, ◌⊎◌,
  eq_iff, eq_self,
}
use acb_go.Models.{GateStatus, is_gate, Gate}
use acb_go.Db.Rows.{
  find, update, key-find, Unique, absent_count, absent_update, refused_count, refused_update,
  admitted_count,
}
use acb_go.Db.Store.{Store}
use acb_go.Db.Statement.{run, update_gate, resolve_gate as resolve, selects_gate, assigns_gate}
use acb_go.Session.{Env, World, ok, err, pure, throw, wrong_gate_status, exec}
use acb_go.Session.Evolution.{gate-update}
use acb_go.Session.Quiet.{IsQuiet, time, ticked, wrote, exec_quiet, bind-ok}
use acb_go.Db.GateRepo.{move_gate, resolve_gate}

resolve_key : (id : String) (g : Gate) → selects_gate (resolve id) g ≡ true → g.gate_id ≡ id
unfolding selects_gate
resolve_key id g h = ground (arith, eq_iff g.gate_id id)

-- The gate can be resolved: it is there, and answered.
abbrev pub IsAnswered : String → List Gate → Type 0
IsAnswered id gs =
    (g : Gate) × (find Gate.gate_id id gs ≡ some g) × (is_gate g.status GateStatus.answered ≡ true)

-- It cannot: it is not there, or has another status.
abbrev pub IsUnanswered : String → List Gate → Type 0
IsUnanswered id gs =
    (find Gate.gate_id id gs ≡ none)
    ⊎ ((g : Gate) × (find Gate.gate_id id gs ≡ some g)
        × (is_gate g.status GateStatus.answered ≡ false))

module _ (e : Env) (q : IsQuiet e) (id : String) (w : World)
    (k : Unique Gate.gate_id w.store.gates) where
  unfoldable pub resolved_store : Store
  resolved_store = record w.store {
    gates = update (selects_gate (resolve id)) (assigns_gate (time e w) (resolve id)) w.store.gates;
  }

  pub resolve_hit :
      (g : Gate)
      → find Gate.gate_id id w.store.gates ≡ some g
      → is_gate g.status GateStatus.answered ≡ true
      → (resolve_gate id e w ≡ (ok tt, wrote w resolved_store))
        × (find Gate.gate_id id resolved_store.gates
            ≡ some (record g { status = GateStatus.resolved }))
  unfolding resolve_gate move_gate run resolved_store pure selects_gate assigns_gate
  resolve_hit g f a =
      let h : selects_gate (resolve id) g ≡ true =
        ground (arith, key-find Gate.gate_id id w.store.gates g f, eq_self id) in
      (
        bind-ok e (exec (update_gate (resolve id))) _ w (wrote w resolved_store) 1 (
            exec_quiet e q (update_gate (resolve id)) w 1 resolved_store (
              rw
                (admitted_count Gate.gate_id (selects_gate (resolve id))
                  (assigns_gate (time e w) (resolve id)) id (resolve_key id) w.store.gates g k f h)
                refl)),
        rw (gate-update (time e w) (resolve id) id w.store.gates, f, h) refl,
      )

  pub resolve_miss :
      IsUnanswered id w.store.gates
      → resolve_gate id e w ≡ (err (wrong_gate_status id GateStatus.answered), ticked w)
  unfolding resolve_gate move_gate run throw selects_gate
  resolve_miss (inl n) = bind-ok e (exec (update_gate (resolve id))) _ w (ticked w) 0 (
      exec_quiet e q (update_gate (resolve id)) w 0 w.store (
        rw
          (
            absent_count Gate.gate_id (selects_gate (resolve id))
                (assigns_gate (time e w) (resolve id)) id (resolve_key id) w.store.gates n,
            absent_update Gate.gate_id (selects_gate (resolve id))
                (assigns_gate (time e w) (resolve id)) id (resolve_key id) w.store.gates n,
          )
          refl))
  resolve_miss (inr (g, f, a)) =
      let h : selects_gate (resolve id) g ≡ false = ground arith in
      bind-ok e (exec (update_gate (resolve id))) _ w (ticked w) 0 (
        exec_quiet e q (update_gate (resolve id)) w 0 w.store (
          rw
            (
              refused_count Gate.gate_id (selects_gate (resolve id))
                  (assigns_gate (time e w) (resolve id)) id (resolve_key id) w.store.gates g k f h,
              refused_update Gate.gate_id (selects_gate (resolve id))
                  (assigns_gate (time e w) (resolve id)) id (resolve_key id) w.store.gates g k f h,
            )
            refl))

pub IsAnswered-or_not : (id : String) (gs : List Gate) → IsAnswered id gs ⊎ IsUnanswered id gs
IsAnswered-or_not id gs = elim (Option-cases (find Gate.gate_id id gs)) [
  | inl n ↦ inr (inl n)
  | inr (g, f) ↦ elim (Bool-cases (is_gate g.status GateStatus.answered)) [
    | inl y ↦ inl (g, f, y)
    | inr n ↦ inr (inr (g, f, n))
  ]
]
