-- ===== src/Session/Quiet.antt =====
-- Requests that run alone: nobody else sends a statement meanwhile, and no call fails.
use acb_go.Prelude.{Bool, if◌then◌else◌, true, false, ℕ, suc, ◌≡◌, refl, false, none, some, []}
use acb_go.Db.Store.{Store}
use acb_go.Db.Statement.{Statement, run}
use acb_go.Session.{
  Env, World, Error, ok, err, M, run_all, arrive, query, exec, answered, on_error, ◌>>=◌, ◌>>◌,
  deref, pure, or_respond, db_failed,
}

pub record IsQuiet (e : Env) : Type 0 where
  pub alone : (n : ℕ) → (e.turn n).others ≡ []
  pub up : (n : ℕ) → (e.turn n).down ≡ false

-- The time of the next call.
abbrev pub time : Env → World → ℕ
time e w = (e.turn w.calls).now

-- The world after a call that changes no table.
abbrev pub ticked : World → World
ticked w = record w { calls = suc w.calls }

-- After one that does.
abbrev pub wrote : World → Store → World
wrote w s = record w { calls = suc w.calls; store = s }

module _ (e : Env) (q : IsQuiet e) where
  arrive_quiet : (w : World) → arrive e w ≡ ticked w
  unfolding arrive run_all
  arrive_quiet w = rw (q.alone w.calls) refl

  pub query_quiet :
      {A : Type 0} (f : ℕ → Store → A) (w : World)
      → query f e w ≡ (ok (f (time e w) w.store), ticked w)
  unfolding query
  query_quiet f w = rw (q.up w.calls, arrive_quiet w) refl

  pub exec_quiet :
      (x : Statement) (w : World) (n : ℕ) (s : Store)
      → run (time e w) x w.store ≡ some (n, s)
      → exec x e w ≡ (ok n, wrote w s)
  unfolding exec answered
  exec_quiet x w n s h = rw (q.up w.calls, arrive_quiet w, h) refl

  pub exec-refused :
      (x : Statement) (w : World)
      → run (time e w) x w.store ≡ none
      → exec x e w ≡ (err db_failed, ticked w)
  unfolding exec answered
  exec-refused x w h = rw (q.up w.calls, arrive_quiet w, h) refl

-- How a block goes on after a part of it.
module _ {A B : Type 0} (e : Env) where
  pub bind-ok :
      (m : M A) (g : A → M B) (w v : World) (a : A) → m e w ≡ (ok a, v) → (m >>= g) e w ≡ g a e v
  unfolding ◌>>=◌
  bind-ok m g w v a h = rw h refl

  pub bind-err :
      (m : M A) (g : A → M B) (w v : World) (x : Error)
      → m e w ≡ (err x, v)
      → (m >>= g) e w ≡ (err x, v)
  unfolding ◌>>=◌
  bind-err m g w v x h = rw h refl

  pub respond-ok :
      (m : M A) (bad : Error → B) (g : A → M B) (w v : World) (a : A)
      → m e w ≡ (ok a, v)
      → or_respond m bad g e w ≡ g a e v
  unfolding or_respond
  respond-ok m bad g w v a h = rw h refl

  pub respond-err :
      (m : M A) (bad : Error → B) (g : A → M B) (w v : World) (x : Error)
      → m e w ≡ (err x, v)
      → or_respond m bad g e w ≡ (ok (bad x), v)
  unfolding or_respond
  respond-err m bad g w v x h = rw h refl

pub on_error-ok :
    {A : Type 0} (e : Env) (m : M A) (x : Error → M A) (w v : World) (a : A)
    → m e w ≡ (ok a, v)
    → on_error m x e w ≡ (ok a, v)
unfolding on_error
on_error-ok e m x w v a h = rw h refl

pub on_error-err :
    {A : Type 0} (e : Env) (m : M A) (x : Error → M A) (w v : World) (y : Error)
    → m e w ≡ (err y, v)
    → on_error m x e w ≡ x y e v
unfolding on_error
on_error-err e m x w v y h = rw h refl

module _ {A : Type 0} (e : Env) (w : World) (b : Bool) (m n : M A) where
  pub if_true : b ≡ true → (if b then m else n) e w ≡ m e w
  if_true h = rw h refl

  pub if_false : b ≡ false → (if b then m else n) e w ≡ n e w
  if_false h = rw h refl

pub then-ok :
    {B : Type 0} (e : Env) (m : M (Unit {0})) (n : M B) (w v : World)
    → m e w ≡ (ok tt, v)
    → (m >> n) e w ≡ n e v
unfolding ◌>>◌
then-ok e m n w v h = bind-ok e m (λ _. n) w v tt h

pub deref-some :
    {A B : Type 0} (e : Env) (w : World) (a : A) (g : A → M B)
    → (deref (some a) >>= g) e w ≡ g a e w
unfolding ◌>>=◌ deref pure
deref-some e w a g = refl
