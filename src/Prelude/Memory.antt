-- ===== src/Prelude/Memory.antt =====
-- A table kept in memory as a list of its rows: it shows that the documented behaviour can be met,
-- and runs the tests.
use xander.Prelude.{
  ℕ, ◌≤◌, ◌≡◌, refl, ◌↔◌, ◌⊎◌, inl, inr, Bool, true, false, none, some, List, [], ◌∷◌, map, arith,
  leb, if◌then◌else◌, In, All, In-filter, filter, count_if, find, Bool-cases,
}
use xander.Prelude.Table.{Table, patch, IsDescending}

module _ {A : Type 0} where
  unfoldable pub insert : (A → ℕ) → A → List A → List A
  insert key x [] = x ∷ []
  insert key x (y ∷ ys) =
      let rest = insert key x ys in if leb (key y) (key x) then x ∷ y ∷ ys else y ∷ rest

  unfoldable pub sort : (A → ℕ) → List A → List A
  unfolding insert
  sort key [] = []
  sort key (x ∷ xs) = insert key x (sort key xs)

module _ {A : Type 0} (key : A → ℕ) where
  In-insert : (x a : A) (xs : List A) → In a (insert key x xs) ↔ ((a ≡ x) ⊎ In a xs)
  unfolding insert
  In-insert x a [] = ground arith
  In-insert x a (y ∷ ys) = ground (arith, In-insert x a ys)

  In-sort : (a : A) (xs : List A) → In a (sort key xs) ↔ In a xs
  unfolding sort
  In-sort a [] = ground arith
  In-sort a (x ∷ xs) = ground (arith, In-insert x a (sort key xs), In-sort a xs)

  All-insert : (P : A → Type 0) (x : A) (xs : List A) → P x → All P xs → All P (insert key x xs)
  unfolding insert
  All-insert P x [] h t = (h, tt)
  All-insert P x (y ∷ ys) h t = ground (arith, All-insert P x ys h t.1)

  All-le : (a b : ℕ) (xs : List A) → a ≤ b → All (λ y. key y ≤ a) xs → All (λ y. key y ≤ b) xs
  All-le a b [] h t = tt
  All-le a b (y ∷ ys) h t = ground (arith, All-le a b ys h t.1)

  insert-IsDescending :
      (x : A) (xs : List A) → IsDescending key xs → IsDescending key (insert key x xs)
  unfolding insert
  insert-IsDescending x [] h = (tt, tt)
  insert-IsDescending x (y ∷ ys) h = elim (Bool-cases (leb (key y) (key x))) [
    | inl le ↦ rw le ((ground arith, All-le (key y) (key x) ys (ground arith) h.0), h)
    | inr gt ↦
        rw gt
          (All-insert (λ z. key z ≤ key y) x ys (ground arith) h.0, insert-IsDescending x ys h.1)
  ]

  pub sort-IsDescending : (xs : List A) → IsDescending key (sort key xs)
  unfolding sort
  sort-IsDescending [] = tt
  sort-IsDescending (x ∷ xs) = insert-IsDescending x (sort key xs) (sort-IsDescending xs)

module _ {A : Type 0} where
  pub In-sort-filter :
      (p : A → Bool) (key : A → ℕ) (xs : List A) (a : A)
      → In a (sort key (filter p xs)) ↔ (In a xs × (p a ≡ true))
  In-sort-filter p key xs a = (
    (λ m. (In-filter p xs a).0 ((In-sort key a (filter p xs)).0 m)),
    (λ m. (In-sort key a (filter p xs)).1 ((In-filter p xs a).1 m)),
  )

  pub find-some : (p : A → Bool) (xs : List A) (a : A) → find p xs ≡ some a → In a xs × (p a ≡ true)
  find-some p [] a h = ground arith
  find-some p (x ∷ xs) a h = ground (arith, find-some p xs a)

  pub find-none : (p : A → Bool) (xs : List A) → find p xs ≡ none → All (λ r. p r ≡ false) xs
  find-none p [] h = tt
  find-none p (x ∷ xs) h = ground (arith, find-none p xs)

abbrev pub memory : {Row : Type 0} → Table Row
memory {Row} = record {
  Db = List Row;
  rows = λ db. db;
  find_many = λ p key db. sort key (filter p db);
  find_unique = λ p db. find p db;
  count = λ p db. count_if p db;
  update_many = λ p f db. (count_if p db, map (patch p f) db);
  create = λ r db. r ∷ db;
  find_many-In = In-sort-filter;
  find_many-IsDescending = λ p key db. sort-IsDescending key (filter p db);
  find_unique-some = find-some;
  find_unique-none = find-none;
  count-rows = λ p db. refl;
  update_many-count = λ p f db. refl;
  update_many-rows = λ p f db. refl;
  create-rows = λ r db. refl;
}
