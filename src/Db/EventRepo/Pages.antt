-- ===== src/Db/EventRepo/Pages.antt =====
-- What a page of the event log holds.
use acb_go.Prelude.{
  ℕ, zero, suc, ◌≤◌, String, ◌≡◌, refl, ◌⊎◌, inl, inr, Bool, true, false, ◌&&◌, List, [], ◌∷◌,
  filter, length, All, arith, Bool-cases,
}
use acb_go.Models.{TaskEvent}
use acb_go.Prelude.{map, take}
use acb_go.Prelude.Int.{ℤ}
use acb_go.Session.{Env, World, ok, arrive, get_env, query, ◌>>=◌, if_nil, pure}
use acb_go.Db.EventRepo.{
  by_id, titled, page_limit, list_since, sort_desc, Cursor, is_after, is_visible, page,
}
use acb_go.Db.EventRepo.Sorting.{
  Mem, Desc, All-sort_desc, All-take, Desc-sort_desc, Desc-take, Mem-sort_desc,
}

module _ (p : TaskEvent → Bool) where
  All-filter :
      (P : TaskEvent → Type 0) (l : List TaskEvent)
      → All P l
      → All (λ e. P e × (p e ≡ true)) (filter p l)
  All-filter P [] a = tt
  All-filter P (e ∷ l) a = elim (Bool-cases (p e)) [
    | inl y ↦ rw y ((a.0, y), All-filter P l a.1)
    | inr n ↦ rw n (All-filter P l a.1)
  ]

  Mem-filter : (e : TaskEvent) (l : List TaskEvent) → Mem e l → p e ≡ true → Mem e (filter p l)
  Mem-filter e [] m h = elim m [ ]
  Mem-filter e (z ∷ l) Mem.head h = rw h Mem.head
  Mem-filter e (z ∷ l) (Mem.tail m) h = elim (Bool-cases (p z)) [
    | inl y ↦ rw y (Mem.tail (Mem-filter e l m h))
    | inr n ↦ rw n (Mem-filter e l m h)
  ]

all_here : (m l : List TaskEvent) → ((e : TaskEvent) → Mem e l → Mem e m) → All (λ e. Mem e m) l
all_here m [] f = tt
all_here m (e ∷ l) f = (f e Mem.head, all_here m l (λ x h. f x (Mem.tail h)))

length-take : (n : ℕ) (l : List TaskEvent) → length (take n l) ≤ n
length-take zero l = omega arith
length-take (suc n) [] = omega arith
length-take (suc n) (e ∷ l) = omega (arith, length-take n l)

All-Mem : (P : TaskEvent → Type 0) (e : TaskEvent) (l : List TaskEvent) → All P l → Mem e l → P e
All-Mem P e [] a m = elim m [ ]
All-Mem P e (z ∷ l) a Mem.head = a.0
All-Mem P e (z ∷ l) a (Mem.tail m) = All-Mem P e l a.1 m

-- What does not fit on a page of a sorted list comes after all that does.
cut_off :
    (by : TaskEvent → ℕ) (e : TaskEvent) (n : ℕ) (l : List TaskEvent)
    → Desc by l
    → Mem e l
    → Mem e (take n l) ⊎ ((length (take n l) ≡ n) × All (λ y. by e ≤ by y) (take n l))
cut_off by e zero l d m = inr (refl, tt)
cut_off by e (suc n) [] d m = elim m [ ]
cut_off by e (suc n) (z ∷ l) d Mem.head = inl Mem.head
cut_off by e (suc n) (z ∷ l) d (Mem.tail m) = elim (cut_off by e n l d.1 m) [
  | inl i ↦ inl (Mem.tail i)
  | inr (f, a) ↦ inr (omega (arith, f), (All-Mem (λ y. by y ≤ by z) e l d.0 m, a))
]

abbrev pub is_wanted : Cursor → String → TaskEvent → Bool
is_wanted c agent e = is_after c e && is_visible agent e

-- A page of the log for a cursor and an agent.
pub record IsPage (c : Cursor) (agent : String) (limit : ℕ) (log found : List TaskEvent)
    : Type 0 where
  pub newest_first : Desc TaskEvent.id found
  pub wanted : All (λ e. Mem e log × (is_wanted c agent e ≡ true)) found
  pub short : length found ≤ limit
  -- What is left out is older than all that is there, and left out only if the page is full.
  pub complete :
      (e : TaskEvent)
      → Mem e log
      → is_wanted c agent e ≡ true
      → Mem e found ⊎ ((length found ≡ limit) × All (λ y. e.id ≤ y.id) found)

-- A page lists events of the log after the cursor that the agent may see, newest first and no more
-- than the limit; such an event is missing only if the page is full, and then it is no newer than any
-- that is listed.
page-IsPage :
    (c : Cursor) (agent : String) (limit : ℕ) (log : List TaskEvent)
    → IsPage c agent limit log (page c agent limit log)
unfolding page
page-IsPage c agent limit log =
    let p = is_wanted c agent in
    let sorted = sort_desc TaskEvent.id (filter p log) in
    let d = Desc-sort_desc TaskEvent.id (filter p log) in
    let q = λ (e : TaskEvent). Mem e log × (p e ≡ true) in
    record {
      newest_first = Desc-take TaskEvent.id limit sorted d;
      wanted = All-take q TaskEvent.id limit sorted (
          All-sort_desc q TaskEvent.id (filter p log)
            (All-filter p (λ e. Mem e log) log (all_here log log (λ e m. m))));
      short = length-take limit sorted;
      complete = λ e m h.
          cut_off TaskEvent.id e limit sorted d
            (Mem-sort_desc TaskEvent.id e (filter p log) (Mem-filter p e log m h));
    }

limit_bound : (limit : ℤ) → page_limit limit ≤ 200
unfolding page_limit
limit_bound limit = ground arith

-- A query by id that is answered returns a page of the log as it is then, with the titles of the tasks,
-- and no limit lets it have more than 200 events.
pub list_since-IsPage :
    (since agent : String) (limit after_id : ℤ) (e : Env) (w : World)
    → (e.turn w.calls).down ≡ false
    → (found : List TaskEvent) × ((list_since since agent limit after_id true e w).0
        ≡ ok (map (titled (arrive e w).store) found))
      × IsPage (by_id after_id) agent (page_limit limit) (arrive e w).store.events found
      × (page_limit limit ≤ 200)
unfolding list_since get_env query ◌>>=◌ if_nil pure
list_since-IsPage since agent limit after_id e w up =
    let log = (arrive e w).store.events in
    (
      page (by_id after_id) agent (page_limit limit) log,
      rw up refl,
      page-IsPage (by_id after_id) agent (page_limit limit) log,
      limit_bound limit,
    )
