-- ===== src/Prelude/Sort.antt =====
-- A stable sort by a numeric key, the smallest first: `[...xs].sort((a, b) => a.key - b.key)`.
use xander.Prelude.{
  ℕ, ◌≤◌, ◌≡◌, refl, ◌↔◌, ◌⊎◌, List, [], ◌∷◌, arith, leb, if◌then◌else◌, In, All, Bool-cases, inl,
  inr,
}

abbrev pub IsAscending {ℓ} : {A : Type ℓ} → (A → ℕ) → List A → Type 0
IsAscending key [] = Unit
IsAscending key (x ∷ xs) = All (λ y. key x ≤ key y) xs × IsAscending key xs

module _ {A : Type 0} where
  unfoldable pub insert_asc : (A → ℕ) → A → List A → List A
  insert_asc key x [] = x ∷ []
  insert_asc key x (y ∷ ys) =
      let rest = insert_asc key x ys in if leb (key x) (key y) then x ∷ y ∷ ys else y ∷ rest

  unfoldable pub sort_asc : (A → ℕ) → List A → List A
  unfolding insert_asc
  sort_asc key [] = []
  sort_asc key (x ∷ xs) = insert_asc key x (sort_asc key xs)

module _ {A : Type 0} (key : A → ℕ) where
  In-insert_asc : (x a : A) (xs : List A) → In a (insert_asc key x xs) ↔ ((a ≡ x) ⊎ In a xs)
  unfolding insert_asc
  In-insert_asc x a [] = ground arith
  In-insert_asc x a (y ∷ ys) = ground (arith, In-insert_asc x a ys)

  pub In-sort_asc : (a : A) (xs : List A) → In a (sort_asc key xs) ↔ In a xs
  unfolding sort_asc
  In-sort_asc a [] = ground arith
  In-sort_asc a (x ∷ xs) = ground (arith, In-insert_asc x a (sort_asc key xs), In-sort_asc a xs)

  pub All-insert_asc :
      (P : A → Type 0) (x : A) (xs : List A) → P x → All P xs → All P (insert_asc key x xs)
  unfolding insert_asc
  All-insert_asc P x [] h t = (h, tt)
  All-insert_asc P x (y ∷ ys) h t = ground (arith, All-insert_asc P x ys h t.1)

  pub All-sort_asc : (P : A → Type 0) (xs : List A) → All P xs → All P (sort_asc key xs)
  unfolding sort_asc
  All-sort_asc P [] t = tt
  All-sort_asc P (x ∷ xs) t = All-insert_asc P x (sort_asc key xs) t.0 (All-sort_asc P xs t.1)

  All-ge : (a b : ℕ) (xs : List A) → a ≤ b → All (λ y. b ≤ key y) xs → All (λ y. a ≤ key y) xs
  All-ge a b [] h t = tt
  All-ge a b (y ∷ ys) h t = ground (arith, All-ge a b ys h t.1)

  insert_asc-IsAscending :
      (x : A) (xs : List A) → IsAscending key xs → IsAscending key (insert_asc key x xs)
  unfolding insert_asc
  insert_asc-IsAscending x [] h = (tt, tt)
  insert_asc-IsAscending x (y ∷ ys) h = elim (Bool-cases (leb (key x) (key y))) [
    | inl le ↦ rw le ((ground arith, All-ge (key x) (key y) ys (ground arith) h.0), h)
    | inr gt ↦ rw gt (
      All-insert_asc (λ z. key y ≤ key z) x ys (ground arith) h.0,
      insert_asc-IsAscending x ys h.1,
    )
  ]

  pub sort_asc-IsAscending : (xs : List A) → IsAscending key (sort_asc key xs)
  unfolding sort_asc
  sort_asc-IsAscending [] = tt
  sort_asc-IsAscending (x ∷ xs) =
      insert_asc-IsAscending x (sort_asc key xs) (sort_asc-IsAscending xs)

  -- A list that is in order stays as it is.
  pub sort_asc-eq : (xs : List A) → IsAscending key xs → sort_asc key xs ≡ xs
  unfolding sort_asc
  sort_asc-eq [] h = refl
  sort_asc-eq (x ∷ []) h = refl
  sort_asc-eq (x ∷ y ∷ ys) h = rw (sort_asc-eq (y ∷ ys) h.1) (ground arith)
