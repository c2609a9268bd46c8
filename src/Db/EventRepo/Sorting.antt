-- ===== src/Db/EventRepo/Sorting.antt =====
-- Sorting and cutting lists of events.
use acb_go.Prelude.{take, ℕ, zero, suc, ◌≤◌, inl, inr, List, [], ◌∷◌, All, arith, Bool-cases, ltb}
use acb_go.Models.{TaskEvent}
use acb_go.Db.EventRepo.{insert_desc, sort_desc}

-- The event is in the list.
pub data Mem (e : TaskEvent) : List TaskEvent → Type 0 where
  head : {l : List TaskEvent} → Mem e (e ∷ l)
  tail : {x : TaskEvent} {l : List TaskEvent} → Mem e l → Mem e (x ∷ l)

module _ (by : TaskEvent → ℕ) where
  -- The largest come first.
  abbrev pub Desc : List TaskEvent → Type 0
  Desc [] = Unit
  Desc (x ∷ l) = All (λ y. by y ≤ by x) l × Desc l

module _ (P : TaskEvent → Type 0) (by : TaskEvent → ℕ) where
  All-insert_desc :
      (e : TaskEvent) (l : List TaskEvent) → P e → All P l → All P (insert_desc by e l)
  unfolding insert_desc
  All-insert_desc e [] p a = (p, tt)
  All-insert_desc e (x ∷ l) p a = elim (Bool-cases (ltb (by x) (by e))) [
    | inl y ↦ rw y (p, a)
    | inr n ↦ rw n (a.0, All-insert_desc e l p a.1)
  ]

  pub All-sort_desc : (l : List TaskEvent) → All P l → All P (sort_desc by l)
  unfolding sort_desc
  All-sort_desc [] a = tt
  All-sort_desc (e ∷ l) a = All-insert_desc e (sort_desc by l) a.0 (All-sort_desc l a.1)

  pub All-take : (n : ℕ) (l : List TaskEvent) → All P l → All P (take n l)
  All-take zero l a = tt
  All-take (suc n) [] a = tt
  All-take (suc n) (e ∷ l) a = (a.0, All-take n l a.1)

  pub All-map :
      (Q : TaskEvent → Type 0)
      → ((e : TaskEvent) → P e → Q e)
      → (l : List TaskEvent) → All P l
      → All Q l
  All-map Q f [] a = tt
  All-map Q f (e ∷ l) a = (f e a.0, All-map Q f l a.1)

module _ (by : TaskEvent → ℕ) where
  Desc-insert_desc : (e : TaskEvent) (l : List TaskEvent) → Desc by l → Desc by (insert_desc by e l)
  unfolding insert_desc
  Desc-insert_desc e [] d = (tt, tt)
  Desc-insert_desc e (x ∷ l) d = elim (Bool-cases (ltb (by x) (by e))) [
    | inl y ↦ rw y (
      (ground arith, All-map (λ z. by z ≤ by x) by (λ z. by z ≤ by e) (λ z h. ground arith) l d.0),
      d,
    )
    | inr n ↦
        rw n
          (All-insert_desc (λ z. by z ≤ by x) by e l (ground arith) d.0, Desc-insert_desc e l d.1)
  ]

  pub Desc-sort_desc : (l : List TaskEvent) → Desc by (sort_desc by l)
  unfolding sort_desc
  Desc-sort_desc [] = tt
  Desc-sort_desc (e ∷ l) = Desc-insert_desc e (sort_desc by l) (Desc-sort_desc l)

  pub Desc-take : (n : ℕ) (l : List TaskEvent) → Desc by l → Desc by (take n l)
  Desc-take zero l d = tt
  Desc-take (suc n) [] d = tt
  Desc-take (suc n) (e ∷ l) d = (All-take (λ y. by y ≤ by e) by n l d.0, Desc-take n l d.1)

  Mem-insert_new : (e : TaskEvent) (l : List TaskEvent) → Mem e (insert_desc by e l)
  unfolding insert_desc
  Mem-insert_new e [] = Mem.head
  Mem-insert_new e (x ∷ l) = elim (Bool-cases (ltb (by x) (by e))) [
    | inl y ↦ rw y Mem.head
    | inr n ↦ rw n (Mem.tail (Mem-insert_new e l))
  ]

  Mem-insert_old : (e x : TaskEvent) (l : List TaskEvent) → Mem e l → Mem e (insert_desc by x l)
  unfolding insert_desc
  Mem-insert_old e x [] m = elim m [ ]
  Mem-insert_old e x (z ∷ l) Mem.head = elim (Bool-cases (ltb (by z) (by x))) [
    | inl y ↦ rw y (Mem.tail Mem.head)
    | inr n ↦ rw n Mem.head
  ]
  Mem-insert_old e x (z ∷ l) (Mem.tail m) = elim (Bool-cases (ltb (by z) (by x))) [
    | inl y ↦ rw y (Mem.tail (Mem.tail m))
    | inr n ↦ rw n (Mem.tail (Mem-insert_old e x l m))
  ]

  pub Mem-sort_desc : (e : TaskEvent) (l : List TaskEvent) → Mem e l → Mem e (sort_desc by l)
  unfolding sort_desc
  Mem-sort_desc e [] m = elim m [ ]
  Mem-sort_desc e (z ∷ l) Mem.head = Mem-insert_new e (sort_desc by l)
  Mem-sort_desc e (z ∷ l) (Mem.tail m) = Mem-insert_old e z (sort_desc by l) (Mem-sort_desc e l m)
