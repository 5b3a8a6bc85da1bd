-- ===== src/Prelude/Dictionary.antt =====
-- Reading a property of an object literal by a key that is any text: `TABLE[key]` and `?? default`.
-- A literal inherits the properties of `Object.prototype`, which such a read finds as well.
use Prim.Native.Nat.{ℕ}
use Prim.Native.String.{String}
use mathlib.Core.Path.{◌≡◌, refl}
use mathlib.Core.Logic.{◌⊎◌, inl, inr}
use mathlib.Core.Bool.{Bool, false}
use mathlib.Core.List.{List, [], ◌∷◌}
use text.Mathlib.Text.{◌==◌ as str_eq}
use text.Mathlib.TextEquality.{eq_iff}
use xander.Prelude.Lists.{any, In}
use xander.Prelude.Tests.{if◌then◌else◌, ltb, leb, Bool-cases}

pub data Property {ℓ} (A : Type ℓ) : Type ℓ where
  own : A → Property A
  inherited : Property A
  missing : Property A

-- The keys that every object literal inherits.
abbrev pub prototype_keys : List String
prototype_keys =
    "constructor" ∷ "__defineGetter__" ∷ "__defineSetter__" ∷ "hasOwnProperty" ∷ "__lookupGetter__"
    ∷ "__lookupSetter__" ∷ "isPrototypeOf" ∷ "propertyIsEnumerable" ∷ "toString" ∷ "valueOf"
    ∷ "__proto__" ∷ "toLocaleString" ∷ []

-- `table[key]`
unfoldable pub read {ℓ} : {A : Type ℓ} → List (String × A) → String → Property A
read [] key = if any (str_eq key) prototype_keys then inherited else missing
read ((k, v) ∷ table) key = let rest = read table key in if str_eq k key then own v else rest

-- A number of a table, or an inherited function or object, which no comparison orders.
pub data Rank : Type 0 where
  number : ℕ → Rank
  not_a_number : Rank

-- `table[key] ?? fallback`
unfoldable pub rank_or : ℕ → Property ℕ → Rank
rank_or fallback (own n) = number n
rank_or fallback inherited = not_a_number
rank_or fallback missing = number fallback

abbrev pub is_above : Rank → Rank → Bool
is_above (number a) (number b) = ltb b a
is_above _ _ = false

abbrev pub is_at_least : Rank → Rank → Bool
is_at_least (number a) (number b) = leb b a
is_at_least _ _ = false

pub Rank-cases : (r : Rank) → (r ≡ not_a_number) ⊎ ((n : ℕ) × (r ≡ number n))
Rank-cases (number n) = inr (n, refl)
Rank-cases not_a_number = inl refl

pub Property-cases :
    {A : Type 0} (p : Property A) → ((v : A) × (p ≡ own v)) ⊎ ((p ≡ inherited) ⊎ (p ≡ missing))
Property-cases (own v) = inl (v, refl)
Property-cases inherited = inr (inl refl)
Property-cases missing = inr (inr refl)

-- What a read finds of its own is an entry of the table.
pub read-In :
    {A : Type 0} (table : List (String × A)) (key : String) (v : A)
    → read table key ≡ own v
    → In (key, v) table
unfolding read
read-In [] key v h = elim (Bool-cases (any (str_eq key) prototype_keys)) [
  | inl e ↦ absurd (cc (rw (e, read) at h))
  | inr e ↦ absurd (cc (rw (e, read) at h))
]
read-In ((k, w) ∷ table) key v h = elim (Bool-cases (str_eq k key)) [
  | inl e ↦
      let same : w ≡ v = cc (rw (e, read) at h) in
      let key_same = (eq_iff k key).0 e in inl (rw (same, key_same) refl)
  | inr e ↦ inr (read-In table key v (rw (e, read) at h))
]

-- A number of a table with a fallback is the fallback or stands in the table.
pub rank_or-In :
    (table : List (String × ℕ)) (fallback : ℕ) (key : String) (n : ℕ)
    → rank_or fallback (read table key) ≡ number n
    → (n ≡ fallback) ⊎ In (key, n) table
unfolding rank_or
rank_or-In table fallback key n h = elim (Property-cases (read table key)) [
  | inl (v, e) ↦ let same : v ≡ n = cc (rw e at h) in inr (read-In table key n (rw (← same) e))
  | inr (inl e) ↦ absurd (cc (rw e at h))
  | inr (inr e) ↦ inl (cc (rw e at h))
]
