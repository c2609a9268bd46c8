-- ===== src/Session/Safe/Facts.antt =====
-- What is known at a place in the code, and the parts of a request that are one step.
use acb_go.Prelude.{ℕ, String, ◌≡◌, refl, Bool, true, false, Option, none, some, All, if◌then◌else◌}
use acb_go.Db.Store.{Store}
use acb_go.Db.Statement.{Statement, run, after}
use acb_go.Session.{
  Env, World, Effect, Error, Outcome, ok, err, panic, M, arrive, pure, throw, query, exec, answered,
  get_env, spawn,
}
use acb_go.Session.Evolution.{
  Issued, Evolves, here, next, Evolves-trans, Evolves-run_all, HasTask, Evolves-HasTask,
}

-- What is known at a place in the code, whatever others do: nothing, that a task is in the tables,
-- or that the place is not reached.
pub data Fact : Type 0 where
  unreached unknown : Fact
  row : String → Fact

abbrev pub Holds : Fact → Store → Type 0
Holds unreached s = ⊥
Holds unknown s = Unit
Holds (row id) s = HasTask id s

pub Holds-mono : (k : Fact) {s t : Store} → Evolves s t → Holds k s → Holds k t
Holds-mono unreached e h = h
Holds-mono unknown e h = tt
Holds-mono (row id) e h = Evolves-HasTask id e h

-- Others, too, send issued statements only.
pub record IsFair (e : Env) : Type 0 where
  pub fair : (n : ℕ) → All Issued (e.turn n).others

abbrev pub Post : {A : Type 0} → (A → Fact) → Store → Outcome A × World → Type 0
Post Q s (ok a, w) = Evolves s w.store × Holds (Q a) w.store
Post Q s (err x, w) = Evolves s w.store
Post Q s (panic, w) = ⊥

-- From a place where `k` is known, `m` runs to its end, and knows `Q` of its value then.
pub record Safe {A : Type 0} (k : Fact) (m : M A) (Q : A → Fact) : Type 0 where
  pub at : (e : Env) → IsFair e → (w : World) → Holds k w.store → Post Q w.store (m e w)

Evolves-arrive : (e : Env) (w : World) → IsFair e → Evolves w.store (arrive e w).store
unfolding arrive
Evolves-arrive e w f = Evolves-run_all _ _ w.store (f.fair w.calls)

Post-answered :
    (l : Fact) (now : ℕ) (q : Statement) (s : Store) (w : World) (r : Option (ℕ × Store))
    → Issued q
    → run now q w.store ≡ r
    → Evolves s w.store
    → ((n : ℕ) (t : Store) → Evolves w.store t → r ≡ some (n, t) → Holds l t)
    → Post (λ n. l) s (answered r w)
unfolding answered
Post-answered l now q s w none i eq e know = e
Post-answered l now q s w (some (n, t)) i eq e know =
    let step : Evolves w.store t = next {u = t} here now q i (unfold after in rw eq) in
    (Evolves-trans e step, know n t step refl)

Post-settled :
    {A : Type 0} (b : Bool) (Q : A → Fact) (s : Store) (w : World) (x : Error)
    (r : Outcome A × World)
    → Evolves s w.store
    → Post Q s r
    → Post Q s (if b then (err x, w) else r)
Post-settled true Q s w x r e p = e
Post-settled false Q s w x r e p = p

pub Safe-unreached : {A : Type 0} (m : M A) (Q : A → Fact) → Safe unreached m Q
Safe-unreached m Q = record { at = λ e f w h. absurd h }

module _ {A : Type 0} (k : Fact) where
  pub Safe-pure : (a : A) → Safe k (pure a) (λ _. k)
  unfolding pure
  Safe-pure a = record { at = λ e f w h. (here, h) }

  pub Safe-throw : (Q : A → Fact) (x : Error) → Safe k (throw x) Q
  unfolding throw
  Safe-throw Q x = record { at = λ e f w h. here }

  pub Safe-get_env : (g : Env → A) → Safe k (get_env g) (λ _. k)
  unfolding get_env
  Safe-get_env g = record { at = λ e f w h. (here, h) }

  -- What a query returns, it knows by the tables that it reads.
  pub Safe-query :
      (Q : A → Fact) (g : ℕ → Store → A)
      → ((now : ℕ) (s : Store) → Holds k s → Holds (Q (g now s)) s)
      → Safe k (query g) Q
  unfolding query
  Safe-query Q g know = record {
    at = λ e f w h.
        let ev = Evolves-arrive e w f in
        Post-settled (e.turn w.calls).down Q w.store _ _ _ ev (ev, know _ _ (Holds-mono k ev h));
  }

pub Safe-return : {A : Type 0} (Q : A → Fact) (a : A) → Safe (Q a) (pure a) Q
unfolding pure
Safe-return Q a = record { at = λ e f w h. (here, h) }

-- A statement that succeeds makes `l` known where its effect does.
pub Safe-exec_know :
    (k l : Fact) (q : Statement)
    → Issued q
    → ((now n : ℕ) (s t : Store) → run now q s ≡ some (n, t) → Holds l t)
    → Safe k (exec q) (λ n. l)
unfolding exec
Safe-exec_know k l q i know = record {
  at = λ e f w h.
      let ev = Evolves-arrive e w f in
      Post-settled (e.turn w.calls).down (λ n. l) w.store _ _ _ ev
        (Post-answered l _ q w.store _ _ i refl ev (λ n t _. know _ n _ t));
}

pub Safe-exec : (k : Fact) (q : Statement) → Issued q → Safe k (exec q) (λ n. k)
unfolding exec
Safe-exec k q i = record {
  at = λ e f w h.
      let ev = Evolves-arrive e w f in
      Post-settled (e.turn w.calls).down (λ n. k) w.store _ _ _ ev
        (Post-answered k _ q w.store _ _ i refl ev
          (λ n t step _. Holds-mono k step (Holds-mono k ev h)));
}

pub Safe-spawn : (k : Fact) (x : Effect) → Safe k (spawn x) (λ _. k)
unfolding spawn
Safe-spawn k x = record { at = λ e f w h. (here, h) }
