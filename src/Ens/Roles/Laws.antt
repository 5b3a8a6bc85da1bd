-- ===== src/Ens/Roles/Laws.antt =====
-- Bitmaps keep the roles apart (backend/src/ens/eac-roles.ts).
use xander.Prelude.{
  filter_ext, ℕ, ◌≡◌, refl, Bool, true, false, ◌&&◌, not, List, ◌∷◌, map, arith, ◌==◌, filter,
  if◌then◌else◌,
}
use xander.Ens.Roles.{
  AgentRole, agent_roles, agent_bit, combine_roles, has_all_roles, actions_from_bitmap,
  agent_registration_role_bitmap, agent_role_index,
}

-- A choice of agent roles, one switch for each.
pub record Choice : Type 0 where
  pub claim : Bool
  pub trade : Bool
  pub transfer : Bool
  pub borrow : Bool
  pub api_request : Bool
  pub vote : Bool
  pub x402_payment : Bool

abbrev pub picks : Choice → AgentRole → Bool
picks c AgentRole.claim = c.claim
picks c AgentRole.trade = c.trade
picks c AgentRole.transfer = c.transfer
picks c AgentRole.borrow = c.borrow
picks c AgentRole.api_request = c.api_request
picks c AgentRole.vote = c.vote
picks c AgentRole.x402_payment = c.x402_payment

abbrev pub chosen : Choice → List AgentRole
chosen c = filter (picks c) agent_roles

-- The bitmap of the chosen roles beside those that the name itself was registered with.
abbrev pub bitmap_of : Choice → ℕ
bitmap_of c = combine_roles (agent_registration_role_bitmap ∷ map agent_bit (chosen c))

abbrev choice : Bool → Bool → Bool → Bool → Bool → Bool → Bool → Choice
choice a b c d e f g = record {
  claim = a;
  trade = b;
  transfer = c;
  borrow = d;
  api_request = e;
  vote = f;
  x402_payment = g;
}

-- Both truth values, and all seven switches, checked by evaluation.
every : (Bool → Bool) → Bool
every p = p true && p false

every_sound : (p : Bool → Bool) (b : Bool) → every p ≡ true → p b ≡ true
unfolding every
every_sound p true h = ground arith
every_sound p false h = ground arith

every_choice : (Choice → Bool) → Bool
unfolding every
every_choice p =
    every λ a.
      every λ b. every λ c. every λ d. every λ e. every λ f. every λ g. p (choice a b c d e f g)

every_choice_sound : (p : Choice → Bool) (c : Choice) → every_choice p ≡ true → p c ≡ true
unfolding every_choice
every_choice_sound p c h =
    every_sound (λ g. p (record c { x402_payment = g })) c.x402_payment
      (every_sound (λ f. every λ g. p (record c { vote = f; x402_payment = g })) c.vote
        (every_sound
          (λ e. every λ f. every λ g. p (record c { api_request = e; vote = f; x402_payment = g }))
          c.api_request
          (every_sound
            (λ d. every λ e. every λ f. every λ g. p (choice c.claim c.trade c.transfer d e f g))
            c.borrow
            (every_sound
              (λ x.
                every λ d. every λ e. every λ f. every λ g. p (choice c.claim c.trade x d e f g))
              c.transfer
              (every_sound
                (λ b.
                  every
                    λ x. every λ d. every λ e. every λ f. every λ g. p (choice c.claim b x d e f g))
                c.trade
                (every_sound
                  (λ a. every λ b.
                    every λ x. every λ d. every λ e. every λ f. every λ g. p (choice a b x d e f g))
                  c.claim h))))))

abbrev same : Bool → Bool → Bool
same a b = if a then b else not b

same_sound : (a b : Bool) → same a b ≡ true → a ≡ b
same_sound a b h = ground arith

decodes-table :
    (r : AgentRole)
    → every_choice (λ c. same (has_all_roles (bitmap_of c) (agent_bit r)) (picks c r)) ≡ true
unfolding every_choice has_all_roles combine_roles agent_registration_role_bitmap
decodes-table AgentRole.claim = refl
decodes-table _ = refl

decodes : (c : Choice) (r : AgentRole) → has_all_roles (bitmap_of c) (agent_bit r) ≡ picks c r
decodes c r = same_sound _ _ (
    every_choice_sound (λ c. same (has_all_roles (bitmap_of c) (agent_bit r)) (picks c r)) c
      (decodes-table r))

-- Whatever agent roles are added to the bitmap that a name is registered with, decoding the bitmap
-- gives back exactly those roles.
pub actions_from_bitmap_of : (c : Choice) → actions_from_bitmap (bitmap_of c) ≡ chosen c
unfolding actions_from_bitmap
actions_from_bitmap_of c =
    filter_ext (λ r. has_all_roles (bitmap_of c) (agent_bit r)) (picks c) agent_roles (decodes c)

abbrev pub is_role : AgentRole → AgentRole → Bool
is_role r r' = agent_role_index r == agent_role_index r'
