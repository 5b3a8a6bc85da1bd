-- ===== src/World/Tests.antt =====
-- Two challenges of one action, one of them redeemed.
use xander.Prelude.{
  ℕ, sym, ◌∙◌, ◌≡◌, ◌≢◌, refl, List, [], ◌∷◌, some, none, In, inl, inr, arith, eq_iff,
}
use xander.Prelude.Memory.{memory}
use xander.Prelude.Text.{parse_digits}
use xander.Prelude.Decimal.{big_int}
use xander.World.Replay.{
  Challenge, ChallengeStatus, Rejection, recorded, rejected, nullifier_value, redeem,
  check_and_redeem, record_value, record_nullifier, redeemed,
}
use xander.World.Replay.Rows.{IsWellFormed}
use xander.World.Replay.Laws.{record_nullifier_replayed}

abbrev first : Challenge
first = record {
  id = "c1";
  claim_id = "claim-1";
  created_at = 1;
  world_action_id = "claim-airdrop";
  nullifier = some 10;
  rp_id = some "rp";
  status = ChallengeStatus.passed;
  resolved_at = some 5;
}

abbrev second : Challenge
second = record first {
  id = "c2";
  nullifier = none;
  rp_id = none;
  status = ChallengeStatus.issued;
  resolved_at = none;
}

abbrev rows : List Challenge
rows = first ∷ second ∷ []

ids-differ : first.id ≢ second.id
ids-differ = ground (arith, eq_iff "c1" "c2")

keyed : (c d : Challenge) → In c rows → In d rows → c.id ≡ d.id → c ≡ d
keyed c d (inl a) (inl b) e = a ∙ sym b
keyed c d (inl a) (inr (inl b)) e = absurd (ids-differ (rw (a, b) at e))
keyed c d (inr (inl a)) (inl b) e = absurd (ids-differ (sym (rw (a, b) at e)))
keyed c d (inr (inl a)) (inr (inl b)) e = a ∙ sym b
keyed c d (inl a) (inr (inr b)) e = absurd b
keyed c d (inr (inl a)) (inr (inr b)) e = absurd b
keyed c d (inr (inr a)) m e = absurd a

used_once :
    (c d : Challenge) (n : ℕ)
    → In c rows
    → In d rows
    → c.nullifier ≡ some n
    → d.nullifier ≡ some n
    → c.world_action_id ≡ d.world_action_id
    → c ≡ d
used_once c d n (inl a) (inl b) x y e = a ∙ sym b
used_once c d n (inl a) (inr (inl b)) x y e = absurd (cc (rw b at y))
used_once c d n (inr (inl a)) m x y e = absurd (cc (rw a at x))
used_once c d n (inl a) (inr (inr b)) x y e = absurd b
used_once c d n (inr (inr a)) m x y e = absurd a

rows-IsWellFormed : IsWellFormed rows
rows-IsWellFormed = record { key = keyed; single_use = used_once }

in_hex : nullifier_value "0x0A" ≡ some 10
unfolding nullifier_value big_int parse_digits
in_hex = refl

abbrev fresh : List Challenge
fresh = first ∷ redeemed 11 "rp" 9 second ∷ []

recorded_eleven : record_nullifier memory "c2" "11" "rp" 9 rows rows ≡ recorded fresh
unfolding record_nullifier record_value check_and_redeem redeem nullifier_value big_int parse_digits
recorded_eleven = refl

record_nullifier_replayed_example :
    (why : Rejection) × (record_nullifier memory "c2" "0x0A" "rp" 9 (second ∷ []) rows
      ≡ rejected why)
record_nullifier_replayed_example =
    record_nullifier_replayed memory "c2" "0x0A" "rp" 9 (second ∷ []) rows second first 10
      rows-IsWellFormed in_hex (inr (inl refl)) refl (inl refl) ids-differ refl refl
