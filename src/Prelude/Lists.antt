-- ===== src/Prelude/Lists.antt =====
-- Lists: Boolean filters that run in a test, membership and universal predicates by recursion.
use Prim.Native.Nat.{ℕ, suc}
use mathlib.Core.Path.{◌≡◌, refl, ap, fun_ext}
use mathlib.Core.Logic.{◌↔◌, ◌⊎◌, inl, inr}
use mathlib.Core.Bool.{Bool, true, false, ◌&&◌, ◌||◌}
use mathlib.Core.Option.{Option, none, some}
use mathlib.Core.List.{List, [], ◌∷◌, map}
use native.Mathlib.Omega.{arith}
use Prim.Native.String.{String}
use text.Mathlib.Text.{◌==◌ as str_eq}
use text.Mathlib.TextEquality.{eq_iff}
use xander.Prelude.Tests.{if◌then◌else◌}

module _ {ℓ} {A : Type ℓ} where
  abbrev pub length : List A → ℕ
  length [] = 0
  length (x ∷ xs) = suc (length xs)

  abbrev pub filter : (A → Bool) → List A → List A
  filter p [] = []
  filter p (x ∷ xs) = if p x then x ∷ filter p xs else filter p xs

  abbrev pub any : (A → Bool) → List A → Bool
  any p [] = false
  any p (x ∷ xs) = p x || any p xs

  abbrev pub all : (A → Bool) → List A → Bool
  all p [] = true
  all p (x ∷ xs) = p x && all p xs

  abbrev pub find : (A → Bool) → List A → Option A
  find p [] = none
  find p (x ∷ xs) = if p x then some x else find p xs

  abbrev pub count_if : (A → Bool) → List A → ℕ
  count_if p [] = 0
  count_if p (x ∷ xs) = if p x then suc (count_if p xs) else count_if p xs

abbrev pub In : {A : Type 0} → A → List A → Type 0
In a [] = ⊥
In a (x ∷ xs) = (a ≡ x) ⊎ In a xs

-- Every element of the list has the property.
abbrev pub All {ℓ κ} : {A : Type ℓ} → (A → Type κ) → List A → Type κ
All P [] = Unit
All P (x ∷ xs) = P x × All P xs

module _ {A : Type 0} where
  pub All-In {κ} : (P : A → Type κ) (xs : List A) (a : A) → All P xs → In a xs → P a
  All-In P [] a h m = absurd m
  All-In P (x ∷ xs) a h (inl e) = rw e h.0
  All-In P (x ∷ xs) a h (inr m) = All-In P xs a h.1 m

  pub All-of_In {κ} : (P : A → Type κ) (xs : List A) → ((a : A) → In a xs → P a) → All P xs
  All-of_In P [] h = tt
  All-of_In P (x ∷ xs) h = (h x (inl refl), All-of_In P xs (λ a m. h a (inr m)))

  pub In-filter :
      (p : A → Bool) (xs : List A) (a : A) → In a (filter p xs) ↔ (In a xs × (p a ≡ true))
  In-filter p [] a = ground arith
  In-filter p (x ∷ xs) a = grind (arith, In-filter p xs a)

  pub In-map : {B : Type 0} (f : A → B) (xs : List A) (a : A) → In a xs → In (f a) (map f xs)
  In-map f [] a m = absurd m
  In-map f (x ∷ xs) a (inl e) = inl (ap f e)
  In-map f (x ∷ xs) a (inr m) = inr (In-map f xs a m)

  pub In-map_inv :
      {B : Type 0} (f : A → B) (xs : List A) (b : B)
      → In b (map f xs)
      → (a : A) × In a xs × (b ≡ f a)
  In-map_inv f [] b m = absurd m
  In-map_inv f (x ∷ xs) b (inl e) = (x, inl refl, e)
  In-map_inv f (x ∷ xs) b (inr m) = let (a, there, e) = In-map_inv f xs b m in (a, inr there, e)

pub nil_of_not_In : {A : Type 0} (xs : List A) → ((a : A) → In a xs → ⊥) → xs ≡ []
nil_of_not_In [] h = refl
nil_of_not_In (x ∷ xs) h = absurd (h x (inl refl))

pub filter_ext {ℓ} :
    {A : Type ℓ} (p q : A → Bool) (xs : List A) → ((a : A) → p a ≡ q a) → filter p xs ≡ filter q xs
filter_ext p q xs h = ap (λ t. filter t xs) (fun_ext h)

-- `includes` on a list of texts
pub any-In : (x : String) (xs : List String) → any (str_eq x) xs ≡ true → In x xs
any-In x [] h = absurd (cc)
any-In x (y ∷ ys) h = ground (arith, eq_iff x y, any-In x ys)
