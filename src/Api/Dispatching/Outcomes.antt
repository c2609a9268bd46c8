-- ===== src/Api/Dispatching/Outcomes.antt =====
-- What the retry code of internal/dispatcher/dispatcher.go ends with in every environment.
use acb_go.Prelude.{
  ℕ, ◌<◌, String, ◌≡◌, ◌∙◌, refl, Bool, true, false, Option, none, some, List, arith, leb, ◌==◌,
  if◌then◌else◌,
}
use acb_go.Models.{Task, Agent}
use acb_go.Db.Store.{Store}
use acb_go.Db.TaskRepo.Reads.{get_by_id}
use acb_go.Db.AgentRepo.{get_by_name}
use acb_go.Session.{
  Env, World, M, Outcome, ok, err, db_failed, catch, query, pure, on_error, if_nil, ◌>>=◌,
}
use acb_go.Session.Quiet.{bind-ok}
use acb_go.Api.Dispatching.Retries.{
  RetryEntry, Sender, enqueue_retry, has_failed, send_webhook, is_over, retry_with, retry_task,
  retry,
}

-- In every environment the code ends with a value of which P holds.
pub record Gives {A : Type 0} (P : A → Type 0) (m : M A) : Type 0 where
  pub at : (e : Env) (w : World) → (a : A) × (v : World) × (m e w ≡ (ok a, v)) × P a

module _ {A : Type 0} (P : A → Type 0) where
  pub Gives-pure : (a : A) → P a → Gives P (pure a)
  unfolding pure
  Gives-pure a p = record { at = λ e w. (a, w, refl, p) }

  pub Gives-if :
      (b : Bool) (m n : M A)
      → (b ≡ true → Gives P m)
      → (b ≡ false → Gives P n)
      → Gives P (if b then m else n)
  Gives-if true m n p q = p refl
  Gives-if false m n p q = q refl

module _ {A B : Type 0} (P : B → Type 0) where
  pub Gives-if_nil :
      (o : Option A) (m : M B) (f : A → M B)
      → Gives P m
      → ((a : A) → Gives P (f a))
      → Gives P (if_nil o m f)
  unfolding if_nil
  Gives-if_nil none m f p q = p
  Gives-if_nil (some a) m f p q = q a

  pub Gives-bind :
      (Q : A → Type 0) (m : M A) (f : A → M B)
      → Gives Q m
      → ((a : A) → Q a → Gives P (f a))
      → Gives P (m >>= f)
  Gives-bind Q m f gm gf = record {
    at = λ e w.
        let (a, v, r, p) = gm.at e w in
        let (b, u, r', p') = (gf a p).at e v in (b, u, bind-ok e m f w v a r ∙ r', p');
  }

read_or_none :
    {A : Type 0} (down : Bool) (o : Option A) (e : Env) (v : World)
    → let r : Outcome (Option A) × World = if down then (err db_failed, v) else (ok o, v) in
      (a : Option A) × (u : World) × (catch r.0 (λ y. pure none) e r.1 ≡ (ok a, u)) × Unit {0}
unfolding pure
read_or_none true o e v = (_, _, refl, tt)
read_or_none false o e v = (_, _, refl, tt)

-- A read whose error counts as a missing row.
pub Gives-read :
    {A : Type 0} (g : ℕ → Store → Option A)
    → Gives (λ _. Unit {0}) (on_error (query g) (λ y. pure none))
unfolding on_error query
Gives-read g = record { at = λ e w. read_or_none (e.turn w.calls).down _ e _ }

-- A property of a queue that a failed webhook keeps, is kept by a retry.
module _ {Json : Type 0} (s : Sender Json) (P : List Json → Type 0) (n : ℕ) (q : List Json)
    (p : P q) (h : (name id : String) → n < 5 → P (enqueue_retry s name id n q)) where
  sent : (b : Bool) (name id : String) → n < 5 → P (if b then enqueue_retry s name id n q else q)
  sent true name id l = h name id l
  sent false name id l = p

  send_webhook-Gives : (a : Agent) (t : Task) → n < 5 → Gives P (send_webhook s a t n q)
  unfolding send_webhook pure
  send_webhook-Gives a t l = record {
    at = λ e w. (_, _, refl, sent (has_failed (s.post a t w.calls)) a.name t.id l);
  }

  retry_with-Gives :
      (x : RetryEntry) (t : Task) (o : Option Agent)
      → x.attempt ≡ n
      → n < 5
      → Gives P (retry_with s x q t o)
  unfolding retry_with
  retry_with-Gives x t o r l = rw r (
      Gives-if_nil P o _ _ (Gives-pure P q p) λ a.
        Gives-if P (a.webhook_url == "") _ _ (λ _. Gives-pure P q p) λ _. send_webhook-Gives a t l)

  retry_task-Gives :
      (x : RetryEntry) (t : Task) → x.attempt ≡ n → n < 5 → Gives P (retry_task s x q t)
  unfolding retry_task get_by_name
  retry_task-Gives x t r l =
      Gives-if P (is_over t) _ _ (λ _. Gives-pure P q p)
        λ _. Gives-bind P _ _ _ (Gives-read _) λ o _. retry_with-Gives x t o r l

  pub retry-Gives : (x : RetryEntry) → x.attempt ≡ n → Gives P (retry s x q)
  unfolding retry get_by_id
  retry-Gives x r =
      Gives-if P (leb 5 x.attempt) _ _ (λ _. Gives-pure P q p)
        λ l.
          Gives-bind P _ _ _ (Gives-read _) λ o _.
            Gives-if_nil P o _ _ (Gives-pure P q p) λ t. retry_task-Gives x t r (ground arith)
