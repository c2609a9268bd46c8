-- ===== src/Api/Announcing.antt =====
-- The end of the transitions of internal/api/task_handler.go, run alone: publish, notify, answer.
use acb_go.Prelude.{
  String, ◌≡◌, refl, ◌∙◌, ap, List, [], ◌∷◌, ◌++◌, if◌then◌else◌, Bool-cases, inl, inr,
}
use acb_go.Models.{Status, Task}
use acb_go.Session.{Env, World, Effect, notify, ok, pure, spawn, get_env, ◌>>=◌, ◌>>◌}
use acb_go.Session.Quiet.{then-ok, if_true, if_false}
use acb_go.Api.Response.{Response}
use acb_go.Api.TaskHandler.Transitions.{notify_change}

pub append_two : {A : Type 0} (xs : List A) (a b : A) → (xs ++ a ∷ []) ++ b ∷ [] ≡ xs ++ a ∷ b ∷ []
append_two [] a b = refl
append_two (x ∷ xs) a b = ap (λ l. x ∷ l) (append_two xs a b)

abbrev pub told : World → List Effect → World
told w l = record w { spawned = l }

pub tell_quiet :
    (e : Env) (first : Effect) (u : Task) (old new : Status) (action : String) (r : Response)
    (w : World)
    → (v : World) × ((spawn first >> (notify_change u old new action >> pure r)) e w ≡ (ok r, v))
      × (v.store ≡ w.store)
      × (v.spawned
          ≡ w.spawned ++ first ∷ (if e.has_dispatcher then notify u old new action ∷ [] else []))
unfolding notify_change pure spawn get_env ◌>>=◌ ◌>>◌
tell_quiet e first u old new action r w =
    let begun = w.spawned ++ first ∷ [] in
    elim (Bool-cases e.has_dispatcher) [
      | inl b ↦ (
        told w (begun ++ notify u old new action ∷ []),
        then-ok e (notify_change u old new action) _ (told w begun) _
            (if_true e (told w begun) e.has_dispatcher _ _ b),
        refl,
        append_two w.spawned _ _ ∙ rw b refl,
      )
      | inr b ↦ (
        told w begun,
        then-ok e (notify_change u old new action) _ (told w begun) _
            (if_false e (told w begun) e.has_dispatcher _ _ b),
        refl,
        rw b refl,
      )
    ]
