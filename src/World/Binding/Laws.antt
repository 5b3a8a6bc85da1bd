-- ===== src/World/Binding/Laws.antt =====
-- When a signal hash is the one of a wallet and a claim (backend/src/world/wallet-binding.ts).
use xander.Prelude.{
  ◌⊎◌, ℕ, Bool, none, false, ◌==◌, arith, ◌≡◌, refl, String, true, Option, some, Bool-cases, inl,
  inr,
}
use xander.Prelude.Decimal.{big_int}
use xander.Prelude.Text.{append, to_lower_case}
use xander.World.Binding.{same_sign, same_value, same_field_element, build_signal, is_bound}

-- Two texts were read as one number: with the same size, and the same sign but for zero.
abbrev pub IsSameNumber : Option (Bool × ℕ) → Option (Bool × ℕ) → Type 0
IsSameNumber a b =
    (s : Bool) × (t : Bool) × (n : ℕ) × (a ≡ some (s, n)) × (b ≡ some (t, n)) × ((s ≡ t) ⊎ (n ≡ 0))

same_sign-eq : (s t : Bool) → same_sign s t ≡ true → s ≡ t
same_sign-eq true true h = refl
same_sign-eq true false h = absurd (cc h)
same_sign-eq false false h = refl
same_sign-eq false true h = absurd (cc h)

same_value-IsSameNumber : (a b : Option (Bool × ℕ)) → same_value a b ≡ true → IsSameNumber a b
same_value-IsSameNumber none b h = absurd (cc h)
same_value-IsSameNumber (some (s, n)) none h = absurd (cc h)
same_value-IsSameNumber (some (s, n)) (some (t, m)) h = elim (Bool-cases (n == m)) [
  | inr apart ↦ absurd (cc (rw apart at h))
  | inl level ↦
      let e : n ≡ m = ground (arith, level) in
      elim (Bool-cases (same_sign s t)) [
        | inl alike ↦ (s, t, n, refl, rw e refl, inl (same_sign-eq s t alike))
        | inr unlike ↦ elim (Bool-cases (n == 0)) [
          | inl zero_size ↦ (s, t, n, refl, rw e refl, inr (ground (arith, zero_size)))
          | inr sized ↦ absurd (cc (rw (level, unlike, sized) at h))
        ]
      ]
]

pub is_bound-IsSameNumber :
    (hash_signal : String → String) (wallet id signal_hash : String)
    → is_bound hash_signal wallet id signal_hash ≡ true
    → IsSameNumber
        (big_int (hash_signal (append (to_lower_case wallet) (append ":" id))))
        (big_int signal_hash)
unfolding same_field_element build_signal
is_bound-IsSameNumber hash_signal wallet id signal_hash h = same_value-IsSameNumber _ _ h
