-- ===== src/Session/Safe/Rules.antt =====
-- One rule for each way to put the parts of a request together.
use acb_go.Prelude.{String, Bool, true, false, Option, none, some, if◌then◌else◌}
use acb_go.Models.{Task}
use acb_go.Db.Store.{Store}
use acb_go.Session.{
  Env, World, Error, Outcome, ok, err, panic, M, continue, catch, settle, deref, on_error, ◌>>=◌,
  ◌>>◌, if_nil, or_respond,
}
use acb_go.Session.Evolution.{Evolves, Evolves-trans}
use acb_go.Session.Safe.Facts.{
  Fact, Holds, Holds-mono, IsFair, Post, Safe, Safe-exec, Safe-exec_know, Safe-get_env, Safe-pure,
  Safe-query, Safe-return, Safe-spawn, Safe-throw, Safe-unreached, unreached, unknown, row,
}

Post-trans :
    {A : Type 0} (Q : A → Fact) {s t : Store} (r : Outcome A × World)
    → Evolves s t
    → Post Q t r
    → Post Q s r
Post-trans Q (ok a, w) e p = (Evolves-trans e p.0, p.1)
Post-trans Q (err x, w) e p = Evolves-trans e p
Post-trans Q (panic, w) e p = p

-- How a block goes on after a part of it, in the three ways that the code has.
module _ {A B : Type 0} (k : Fact) (e : Env) (f : IsFair e) (s : Store) where
  Post-continue :
      (Q : A → Fact) (R : B → Fact) (g : A → M B)
      → ((a : A) → Safe (Q a) (g a) R)
      → (r : Outcome A × World) → Post Q s r
      → Post R s (continue r.0 g e r.1)
  Post-continue Q R g sg (ok a, w) p = Post-trans R (g a e w) p.0 ((sg a).at e f w p.1)
  Post-continue Q R g sg (err x, w) p = p
  Post-continue Q R g sg (panic, w) p = p

  Post-settle :
      (Q : A → Fact) (bad : Error → B) (g : A → M B)
      → ((a : A) → Safe (Q a) (g a) (λ _. unknown))
      → (r : Outcome A × World) → Post Q s r
      → Post (λ _. unknown) s (settle r.0 bad g e r.1)
  Post-settle Q bad g sg (ok a, w) p = Post-trans (λ _. unknown) (g a e w) p.0 ((sg a).at e f w p.1)
  Post-settle Q bad g sg (err x, w) p = (p, tt)
  Post-settle Q bad g sg (panic, w) p = p

Post-catch :
    {A : Type 0} (k : Fact) (e : Env) (f : IsFair e) (s : Store) (Q : A → Fact) (x : Error → M A)
    → ((y : Error) → Safe k (x y) Q)
    → (r : Outcome A × World) → Holds k s
    → Post Q s r
    → Post Q s (catch r.0 x e r.1)
Post-catch k e f s Q x sx (ok a, w) h p = p
Post-catch k e f s Q x sx (err y, w) h p =
    Post-trans Q (x y e w) p ((sx y).at e f w (Holds-mono k p h))
Post-catch k e f s Q x sx (panic, w) h p = p

pub Safe-on_error :
    {A : Type 0} (k : Fact) (m : M A) (x : Error → M A) (Q : A → Fact)
    → Safe k m Q
    → ((y : Error) → Safe k (x y) Q)
    → Safe k (on_error m x) Q
unfolding on_error
Safe-on_error k m x Q sm sx = record {
  at = λ e f w h. Post-catch k e f w.store Q x sx (m e w) h (sm.at e f w h);
}

-- Knowledge may be dropped.
pub Safe-forget : {A : Type 0} (k : Fact) (m : M A) (Q : A → Fact) → Safe unknown m Q → Safe k m Q
Safe-forget k m Q sm = record { at = λ e f w h. sm.at e f w tt }

module _ {A B : Type 0} (k : Fact) where
  pub Safe-bind :
      (Q : A → Fact) (R : B → Fact) (m : M A) (g : A → M B)
      → Safe k m Q
      → ((a : A) → Safe (Q a) (g a) R)
      → Safe k (m >>= g) R
  unfolding ◌>>=◌
  Safe-bind Q R m g sm sg = record {
    at = λ e f w h. Post-continue k e f w.store Q R g sg (m e w) (sm.at e f w h);
  }

  pub Safe-or_respond :
      (Q : A → Fact) (m : M A) (bad : Error → B) (g : A → M B)
      → Safe k m Q
      → ((a : A) → Safe (Q a) (g a) (λ _. unknown))
      → Safe k (or_respond m bad g) (λ _. unknown)
  unfolding or_respond
  Safe-or_respond Q m bad g sm sg = record {
    at = λ e f w h. Post-settle k e f w.store Q bad g sg (m e w) (sm.at e f w h);
  }

-- The same, where the first part teaches nothing.
module _ {A B : Type 0} (k : Fact) where
  pub Safe-then :
      (R : B → Fact) (m : M A) (g : A → M B)
      → Safe k m (λ _. k)
      → ((a : A) → Safe k (g a) R)
      → Safe k (m >>= g) R
  Safe-then R m g sm sg = Safe-bind k (λ _. k) R m g sm sg

  pub Safe-then_respond :
      (m : M A) (bad : Error → B) (g : A → M B)
      → Safe k m (λ _. k)
      → ((a : A) → Safe k (g a) (λ _. unknown))
      → Safe k (or_respond m bad g) (λ _. unknown)
  Safe-then_respond m bad g sm sg = Safe-or_respond k (λ _. k) m bad g sm sg

pub Safe-seq :
    {B : Type 0} (k l : Fact) (R : B → Fact) (m : M (Unit {0})) (n : M B)
    → Safe k m (λ _. l)
    → Safe l n R
    → Safe k (m >> n) R
unfolding ◌>>◌
Safe-seq k l R m n sm sn = Safe-bind k (λ _. l) R m (λ _. n) sm (λ _. sn)

pub Safe->> :
    {B : Type 0} (k : Fact) (R : B → Fact) (m : M (Unit {0})) (n : M B)
    → Safe k m (λ _. k)
    → Safe k n R
    → Safe k (m >> n) R
Safe->> k R m n sm sn = Safe-seq k k R m n sm sn

pub Safe-if :
    {A : Type 0} (k : Fact) (Q : A → Fact) (b : Bool) (m n : M A)
    → Safe k m Q
    → Safe k n Q
    → Safe k (if b then m else n) Q
Safe-if k Q true m n sm sn = sm
Safe-if k Q false m n sm sn = sn

-- What is known of the task that a lookup found: it is in the tables. If it was known to be there
-- before, the lookup does not come back with nil.
abbrev pub if_found : String → Option Task → Fact
if_found id none = unknown
if_found id (some t) = row id

abbrev pub not_nil : String → Option Task → Fact
not_nil id none = unreached
not_nil id (some t) = row id

module _ {A B : Type 0} (F : Option A → Fact) (R : B → Fact) where
  pub Safe-if_nil :
      (o : Option A) (x : M B) (g : A → M B)
      → Safe (F none) x R
      → ((a : A) → Safe (F (some a)) (g a) R)
      → Safe (F o) (if_nil o x g) R
  unfolding if_nil
  Safe-if_nil none x g sx sg = sx
  Safe-if_nil (some a) x g sx sg = sg a

pub Safe-deref : (id : String) (o : Option Task) → Safe (not_nil id o) (deref o) (λ _. row id)
unfolding deref
Safe-deref id none = Safe-unreached _ _
Safe-deref id (some t) = Safe-pure (row id) t

-- The rules that `search` walks a block with.
pub ruleset safe_rules = (
  Safe-pure, Safe-throw, Safe-get_env, Safe-exec, Safe-spawn, Safe-then, Safe->>, Safe-then_respond,
  Safe-if, Safe-on_error,
)

pub Post-if :
    {A : Type 0} (k : Fact) (b : Bool) (s : Store) (x y : Outcome A × World)
    → Post (λ _. k) s x
    → Post (λ _. k) s y
    → Post (λ _. k) s (if b then x else y)
Post-if k true s x y p q = p
Post-if k false s x y p q = q

-- After a method that does not come back with nil, the row is there.
pub Safe-reached :
    {A : Type 0} (id : String) (o : Option Task) (m : M A) (Q : A → Fact)
    → Safe (row id) m Q
    → Safe (not_nil id o) m Q
Safe-reached id none m Q s = Safe-unreached m Q
Safe-reached id (some t) m Q s = s
