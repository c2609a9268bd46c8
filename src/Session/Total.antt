-- ===== src/Session/Total.antt =====
-- Requests that leave no error of a repository unanswered.
use acb_go.Prelude.{refl, ◌≢◌, Bool, true, false, Option, none, some, if◌then◌else◌}
use acb_go.Session.{
  Env, World, M, Error, Effect, Outcome, ok, err, panic, continue, settle, catch, pure, deref,
  get_env, spawn, if_nil, on_error, or_respond, ◌>>=◌, ◌>>◌,
}

pub record NoError {A : Type 0} (m : M A) : Type 0 where
  pub at : (e : Env) (w : World) (x : Error) → (m e w).0 ≢ err x

module _ {A : Type 0} where
  pub NoError-pure : (a : A) → NoError (pure a)
  unfolding pure
  NoError-pure a = record { at = λ e w x h. cc }

  pub NoError-get_env : (g : Env → A) → NoError (get_env g)
  unfolding get_env
  NoError-get_env g = record { at = λ e w x h. cc }

  pub NoError-deref : (o : Option A) → NoError (deref o)
  unfolding deref
  NoError-deref none = record { at = λ e w x h. cc }
  NoError-deref (some a) = record { at = λ e w x h. cc }

  pub NoError-if : (b : Bool) (m n : M A) → NoError m → NoError n → NoError (if b then m else n)
  NoError-if true m n p q = p
  NoError-if false m n p q = q

pub NoError-spawn : (y : Effect) → NoError (spawn y)
unfolding spawn
NoError-spawn y = record { at = λ e w x h. cc }

module _ {A B : Type 0} where
  continued :
      (r : Outcome A × World) (g : A → M B) (e : Env) (x : Error)
      → ((y : Error) → r.0 ≢ err y)
      → ((a : A) → NoError (g a))
      → (continue r.0 g e r.1).0 ≢ err x
  continued (ok a, w) g e x n ng = (ng a).at e w x
  continued (err y, w) g e x n ng = absurd (n y refl)
  continued (panic, w) g e x n ng = λ h. cc

  pub NoError-bind :
      (m : M A) (g : A → M B) → NoError m → ((a : A) → NoError (g a)) → NoError (m >>= g)
  unfolding ◌>>=◌
  NoError-bind m g nm ng = record { at = λ e w x. continued (m e w) g e x (nm.at e w) ng }

  settled :
      (r : Outcome A × World) (bad : Error → B) (g : A → M B) (e : Env) (x : Error)
      → ((a : A) → NoError (g a))
      → (settle r.0 bad g e r.1).0 ≢ err x
  settled (ok a, w) bad g e x ng = (ng a).at e w x
  settled (err y, w) bad g e x ng = λ h. cc
  settled (panic, w) bad g e x ng = λ h. cc

  -- Whatever the repository does.
  pub NoError-or_respond :
      (m : M A) (bad : Error → B) (g : A → M B)
      → ((a : A) → NoError (g a))
      → NoError (or_respond m bad g)
  unfolding or_respond
  NoError-or_respond m bad g ng = record { at = λ e w x. settled (m e w) bad g e x ng }

  pub NoError-if_nil :
      (o : Option A) (n : M B) (g : A → M B)
      → NoError n
      → ((a : A) → NoError (g a))
      → NoError (if_nil o n g)
  unfolding if_nil
  NoError-if_nil none n g p q = p
  NoError-if_nil (some a) n g p q = q a

pub NoError->> :
    {B : Type 0} (m : M (Unit {0})) (n : M B) → NoError m → NoError n → NoError (m >> n)
unfolding ◌>>◌
NoError->> m n p q = NoError-bind m (λ _. n) p (λ _. q)

caught :
    {A : Type 0} (r : Outcome A × World) (h : Error → M A) (e : Env) (x : Error)
    → ((y : Error) → NoError (h y))
    → (catch r.0 h e r.1).0 ≢ err x
caught (ok a, w) h e x n = λ p. cc
caught (err y, w) h e x n = (n y).at e w x
caught (panic, w) h e x n = λ p. cc

-- Whatever the caught part does.
pub NoError-on_error :
    {A : Type 0} (m : M A) (h : Error → M A)
    → ((y : Error) → NoError (h y))
    → NoError (on_error m h)
unfolding on_error
NoError-on_error m h n = record { at = λ e w x. caught (m e w) h e x n }

pub ruleset total_rules = (
  NoError-pure, NoError-get_env, NoError-deref, NoError-if, NoError-spawn, NoError-bind, NoError->>,
  NoError-or_respond, NoError-if_nil, NoError-on_error,
)
