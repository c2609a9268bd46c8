-- ===== src/Session.antt =====
-- How a request runs. Every database call is one atomic statement. Before it, whatever else runs in
-- the service may have sent statements of its own, time passes, and the call may fail: all of this
-- is chosen by the environment, one turn for each call. What `go` starts is recorded in order.
pub mod Evolution
pub mod Safe
pub mod Quiet
pub mod Total
use acb_go.Prelude.{
  ℕ, suc, String, Bool, Option, none, some, List, [], ◌∷◌, ◌++◌, ◌==◌, if◌then◌else◌,
}
use acb_go.Config.{Config}
use acb_go.Models.{Status, GateStatus, Task}
use acb_go.Db.Store.{Store}
use acb_go.Db.Statement.{Statement, run, after}

-- What happens up to a database call: the statements of others, the time, and a failure.
pub record Turn : Type 0 where
  pub others : List Statement
  pub now : ℕ
  pub down : Bool

-- The outside of a request. `uuid` gives the text of uuid.New(), by the calls made before. The two
-- flags say that `eventRepo` of TaskRepo and `dispatcher` of TaskHandler are not nil. `like text pattern`
-- is PostgreSQL's LIKE, `marshal` the JSON text that a list of texts is stored as, and
-- `timestamptz` the time that PostgreSQL reads in a text, or `none` if it refuses the text.
pub record Env : Type 0 where
  pub turn : ℕ → Turn
  pub uuid : ℕ → String
  pub has_event_repo : Bool
  pub has_dispatcher : Bool
  pub cfg : Option Config
  pub like : String → String → Bool
  pub marshal : List String → String
  pub timestamptz : String → Option ℕ

-- What a handler starts with `go`.
pub data Effect : Type 0 where
  publish : (event task_id agent gate_id summary : String) → List String → Effect
  notify : Task → Status → Status → String → Effect
  dispatch_new : Task → Effect

-- An object in the bucket: the file, and what is stored with it.
pub record Blob : Type 0 where
  pub content : List ℕ
  pub size : ℕ
  pub content_type : String

-- The object under a key.
unfoldable pub object_in : List (String × Blob) → String → Option Blob
object_in [] key = none
object_in ((k, b) ∷ rest) key = if k == key then some b else object_in rest key

-- The tables, the objects in the bucket by their keys, and what the request did.
pub record World : Type 0 where
  pub store : Store
  pub objects : List (String × Blob)
  pub calls : ℕ
  pub spawned : List Effect

-- The errors of the repositories; `secret_failed` is one of hashing or
-- encryption, and the last two are of the object storage. `current` of a conflict is what the second query read.
pub data Error : Type 0 where
  db_failed : Error
  not_found : String → Error
  conflict : (current : Status) → (message : String) → Error
  wrong_gate_status : String → GateStatus → Error
  agent_not_found : String → Error
  invalid_timeout : Error
  secret_failed storage_failed object_not_found : Error

-- `panic` is a nil dereference.
pub data Outcome (A : Type 0) : Type 0 where
  ok : A → Outcome A
  err : Error → Outcome A
  panic : Outcome A

abbrev pub M : Type 0 → Type 0
M A = Env → World → Outcome A × World

-- The statements of others, in their order.
unfoldable pub run_all : ℕ → List Statement → Store → Store
run_all now [] s = s
run_all now (q ∷ qs) s = run_all now qs (after now q s)

-- The world in which the next database call is answered.
unfoldable pub arrive : Env → World → World
arrive e w =
    let turn = e.turn w.calls in
    record w { store = run_all turn.now turn.others w.store; calls = suc w.calls }

abbrev pub continue : {A B : Type 0} → Outcome A → (A → M B) → M B
continue (ok a) f e w = f a e w
continue (err x) f e w = (err x, w)
continue panic f e w = (panic, w)

abbrev pub catch : {A : Type 0} → Outcome A → (Error → M A) → M A
catch (ok a) h e w = (ok a, w)
catch (err x) h e w = h x e w
catch panic h e w = (panic, w)

module _ {A : Type 0} where
  unfoldable pub pure : A → M A
  pure a e w = (ok a, w)

  unfoldable pub throw : Error → M A
  throw x e w = (err x, w)

  -- A nil dereference.
  unfoldable pub crash : M A
  crash e w = (panic, w)

  -- A SELECT, of the tables and the time.
  unfoldable pub query : (ℕ → Store → A) → M A
  query f e w =
      let turn = e.turn w.calls in
      let w' = arrive e w in
      if turn.down then (err db_failed, w') else (ok (f turn.now w'.store), w')

  -- `p.field` for a pointer p.
  unfoldable pub deref : Option A → M A
  unfolding pure crash
  deref none = crash
  deref (some a) = pure a

  unfoldable pub get_env : (Env → A) → M A
  get_env f e w = (ok (f e), w)

  -- An error that the code handles, or ignores.
  unfoldable pub on_error : M A → (Error → M A) → M A
  on_error m h e w = let (r, w') = m e w in catch r h e w'

answered : Option (ℕ × Store) → World → Outcome ℕ × World
answered none w = (err db_failed, w)
answered (some (n, s)) w = (ok n, record w { store = s })

-- Any other statement; its value is the number of rows that it affected.
unfoldable pub exec : Statement → M ℕ
unfolding answered
exec q e w =
    let turn = e.turn w.calls in
    let w' = arrive e w in
    if turn.down then (err db_failed, w') else answered (run turn.now q w'.store) w'

unfoldable pub spawn : Effect → M (Unit {0})
spawn x e w = (ok tt, record w { spawned = w.spawned ++ x ∷ [] })

abbrev pub settle : {A R : Type 0} → Outcome A → (Error → R) → (A → M R) → M R
settle (ok a) bad f e w = f a e w
settle (err x) bad f e w = (ok (bad x), w)
settle panic bad f e w = (panic, w)

module _ {A B : Type 0} where
  infixl 5 ◌>>=◌
  unfoldable pub ◌>>=◌ : M A → (A → M B) → M B
  ◌>>=◌ m f e w = let (r, w') = m e w in continue r f e w'

  -- `if p == nil { x }`, with what follows it.
  unfoldable pub if_nil : Option A → M B → (A → M B) → M B
  if_nil none x f = x
  if_nil (some a) x f = f a

infixl 5 ◌>>◌
unfoldable pub ◌>>◌ : {B : Type 0} → M (Unit {0}) → M B → M B
unfolding ◌>>=◌
m >> n = m >>= λ _. n

-- A handler's `m`, with the response to its error, and what follows otherwise.
unfoldable pub or_respond : {A R : Type 0} → M A → (Error → R) → (A → M R) → M R
or_respond m bad f e w = let (r, w') = m e w in settle r bad f e w'
