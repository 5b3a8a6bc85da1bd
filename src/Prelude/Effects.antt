-- ===== src/Prelude/Effects.antt =====
-- Handlers that read and write the database and may throw. What was written before a throw stays
-- written: the backend opens no transaction around a handler.
use mathlib.Core.Path.{◌≡◌, refl, ap}
use mathlib.Core.Bool.{Bool, true, false}
use mathlib.Core.Option.{Option, none, some}

pub data Outcome (E A : Type 0) : Type 0 where
  returns : A → Outcome E A
  throws : E → Outcome E A

-- A handler over the state `W`, with errors `E` and result `A`.
abbrev pub Program : Type 0 → Type 0 → Type 0 → Type 0
Program W E A = W → Outcome E A × W

module _ {W E A : Type 0} where
  abbrev pub pure : A → Program W E A
  pure a w = (returns a, w)

  abbrev pub throw : E → Program W E A
  throw e w = (throws e, w)

  abbrev pub reads : (W → A) → Program W E A
  reads f w = (returns (f w), w)

  -- A row that has to be there.
  abbrev pub expect : Option A → E → Program W E A
  expect none e = throw e
  expect (some a) e = pure a

module _ {W E : Type 0} where
  abbrev pub writes : (W → W) → Program W E (Unit {0})
  writes f w = (returns tt, f w)

  abbrev pub require : Bool → E → Program W E (Unit {0})
  require true e = pure tt
  require false e = throw e

module _ {W E A B : Type 0} where
  abbrev pub proceed : Outcome E A × W → (A → Program W E B) → Outcome E B × W
  proceed (returns a, w) f = f a w
  proceed (throws e, w) f = (throws e, w)

infixl 5 ◌>>=◌ ◌>>◌
abbrev pub ◌>>=◌ : {W E A B : Type 0} → Program W E A → (A → Program W E B) → Program W E B
◌>>=◌ m f w = proceed (m w) f

abbrev pub ◌>>◌ : {W E B : Type 0} → Program W E (Unit {0}) → Program W E B → Program W E B
◌>>◌ m k w = proceed (m w) (λ _. k)

-- A handler keeps a property of states and relates the states before and after: on every path, a
-- throw included.
pub record Keeps {W E A : Type 0} (Inv : W → Type 0) (Rel : W → W → Type 0) (m : Program W E A)
    : Type 0 where
  pub run : (w : W) → Inv w → Inv (m w).1 × Rel w (m w).1

module _ {W : Type 0} (E : Type 0) (Inv : W → Type 0) (Rel : W → W → Type 0)
    (same : (w : W) → Rel w w) (join : (u v w : W) → Rel u v → Rel v w → Rel u w) where
  pub Keeps-pure : {A : Type 0} (a : A) → Keeps {E = E} Inv Rel (pure a)
  Keeps-pure a = record { run = λ w h. (h, same w) }

  expect-run :
      {A : Type 0} (o : Option A) (e : E) (w : W)
      → Inv w
      → Inv (expect o e w).1 × Rel w (expect o e w).1
  expect-run none e w h = (h, same w)
  expect-run (some a) e w h = (h, same w)

  pub Keeps-expect : {A : Type 0} (f : W → Option A) (e : E) → Keeps Inv Rel (λ w. expect (f w) e w)
  Keeps-expect f e = record { run = λ w. expect-run (f w) e w }

  pub Keeps-reads : {A : Type 0} (f : W → A) → Keeps {E = E} Inv Rel (reads f)
  Keeps-reads f = record { run = λ w h. (h, same w) }

  pub Keeps-require : (b : Bool) (e : E) → Keeps Inv Rel (require b e)
  Keeps-require true e = record { run = λ w h. (h, same w) }
  Keeps-require false e = record { run = λ w h. (h, same w) }

  proceed-run :
      {A B : Type 0} (w : W) (r : Outcome E A × W) (f : A → Program W E B)
      → Inv r.1 × Rel w r.1
      → ((a : A) → Keeps Inv Rel (f a))
      → Inv (proceed r f).1 × Rel w (proceed r f).1
  proceed-run w (returns a, v) f h k = let (i, r) = (k a).run v h.0 in (i, join w v (f a v).1 h.1 r)
  proceed-run w (throws e, v) f h k = h

  pub Keeps-bind :
      {A B : Type 0} {m : Program W E A} {f : A → Program W E B}
      → Keeps Inv Rel m
      → ((a : A) → Keeps Inv Rel (f a))
      → Keeps Inv Rel (m >>= f)
  Keeps-bind {m = m} {f} h k = record { run = λ w i. proceed-run w (m w) f (h.run w i) k }

  pub Keeps-then :
      {B : Type 0} {m : Program W E (Unit {0})} {k : Program W E B}
      → Keeps Inv Rel m
      → Keeps Inv Rel k
      → Keeps Inv Rel (m >> k)
  Keeps-then {m = m} {k} h hk = record {
    run = λ w i. proceed-run w (m w) (λ _. k) (h.run w i) (λ _. hk);
  }

-- What a sequence that returned did.
pub proceed-returns :
    {W E A B : Type 0} (r : Outcome E A × W) (f : A → Program W E B) (b : B) (w : W)
    → proceed r f ≡ (returns b, w)
    → (a : A) × (v : W) × (r ≡ (returns a, v)) × (f a v ≡ (returns b, w))
proceed-returns (returns a, v) f b w h = (a, v, refl, h)
proceed-returns (throws e, v) f b w h = absurd (cc h)

pub returns-inj :
    {W E A : Type 0} (a b : A) (v w : W)
    → ◌≡◌ {A = Outcome E A × W} (returns a, v) (returns b, w)
    → (a ≡ b) × (v ≡ w)
returns-inj {E = E} {A} a b v w h =
    let outcomes : ◌≡◌ {A = Outcome E A} (returns a) (returns b) = ap (λ p. p.0) h in
    (cc outcomes, ap (λ p. p.1) h)
