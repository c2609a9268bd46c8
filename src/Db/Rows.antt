-- ===== src/Db/Rows.antt =====
-- Tables as lists of rows with a text key: what SELECT, UPDATE … WHERE and INSERT do to them.
use acb_go.Prelude.{
  String, ◌≡◌, refl, Bool, true, false, count, Option, none, some, List, [], ◌∷◌, ◌++◌, arith, ◌==◌,
  eq_iff, if◌then◌else◌,
}

-- UPDATE … SET f WHERE p.
unfoldable pub update : {A : Type 0} → (A → Bool) → (A → A) → List A → List A
update p f [] = []
update p f (x ∷ xs) = (if p x then f x else x) ∷ update p f xs

-- What such a statement does to one row, if it is there.
abbrev pub touch : {A : Type 0} → (A → Bool) → (A → A) → Option A → Option A
touch p f none = none
touch p f (some x) = some (if p x then f x else x)

abbrev pub or_else : {A : Type 0} → Option A → Option A → Option A
or_else none o = o
or_else (some a) o = some a

module _ {A : Type 0} (key : A → String) where
  -- SELECT … WHERE key = k, for a primary key.
  unfoldable pub find : String → List A → Option A
  find k [] = none
  find k (x ∷ xs) = if key x == k then some x else find k xs

  -- No two rows have one key.
  abbrev pub Unique : List A → Type 0
  Unique [] = Unit
  Unique (x ∷ xs) = (find (key x) xs ≡ none) × Unique xs

  -- The row that a key finds has that key.
  pub key-find : (k : String) (xs : List A) (x : A) → find k xs ≡ some x → key x ≡ k
  unfolding find
  key-find k [] x h = cc
  key-find k (y ∷ xs) x h = ground (arith, eq_iff (key y) k, key-find k xs x)

  pub find-append :
      (k : String) (xs ys : List A) → find k (xs ++ ys) ≡ or_else (find k xs) (find k ys)
  unfolding find
  find-append k [] ys = refl
  find-append k (x ∷ xs) ys = ground (arith, find-append k xs ys)

  pub Unique-snoc :
      (xs : List A) (y : A) → find (key y) xs ≡ none → Unique xs → Unique (xs ++ y ∷ [])
  unfolding find
  Unique-snoc [] y fresh u = (refl, tt)
  Unique-snoc (x ∷ xs) y fresh u = ground (
    arith,
    Unique-snoc xs y,
    find-append (key x) xs (y ∷ []),
    eq_iff (key x) (key y),
    eq_iff (key y) (key x),
  )

  module _ (p : A → Bool) (f : A → A) (same : (x : A) → p x ≡ true → key (f x) ≡ key x) where
    -- An update that keeps the keys of the rows that it selects changes the row of a key in place, and no other.
    pub find-update : (k : String) (xs : List A) → find k (update p f xs) ≡ touch p f (find k xs)
    unfolding find update
    find-update k [] = refl
    find-update k (x ∷ xs) = ground (arith, find-update k xs, same x)

    pub Unique-update : (xs : List A) → Unique xs → Unique (update p f xs)
    unfolding update
    Unique-update [] u = tt
    Unique-update (x ∷ xs) u =
        ground (arith, Unique-update xs, find-update (key x) xs, find-update (key (f x)) xs, same x)

  module _ (p : A → Bool) (f : A → A) (k : String)
      (only_key : (x : A) → p x ≡ true → key x ≡ k) where
    -- A statement for one key affects no row if the key is not there.
    pub absent_count : (xs : List A) → find k xs ≡ none → count p xs ≡ 0
    unfolding find
    absent_count [] h = refl
    absent_count (x ∷ xs) h = ground (arith, absent_count xs, eq_iff (key x) k, only_key x)

    pub absent_update : (xs : List A) → find k xs ≡ none → update p f xs ≡ xs
    unfolding find update
    absent_update [] h = refl
    absent_update (x ∷ xs) h = ground (arith, absent_update xs, eq_iff (key x) k, only_key x)

    -- Nor if the row of the key does not pass the test.
    pub refused_count :
        (xs : List A) (x : A) → Unique xs → find k xs ≡ some x → p x ≡ false → count p xs ≡ 0
    unfolding find
    refused_count [] x u h n = refl
    refused_count (y ∷ xs) x u h n =
        ground (arith, absent_count xs, refused_count xs x u.1, eq_iff (key y) k, only_key y, u.0)

    pub refused_update :
        (xs : List A) (x : A) → Unique xs → find k xs ≡ some x → p x ≡ false → update p f xs ≡ xs
    unfolding find update
    refused_update [] x u h n = refl
    refused_update (y ∷ xs) x u h n =
        ground (arith, absent_update xs, refused_update xs x u.1, eq_iff (key y) k, only_key y, u.0)

    -- And one row if it does.
    pub admitted_count :
        (xs : List A) (x : A) → Unique xs → find k xs ≡ some x → p x ≡ true → count p xs ≡ 1
    unfolding find
    admitted_count [] x u h n = cc
    admitted_count (y ∷ xs) x u h n =
        ground (arith, absent_count xs, admitted_count xs x u.1, eq_iff (key y) k, only_key y, u.0)
