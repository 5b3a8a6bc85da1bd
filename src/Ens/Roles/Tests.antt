-- ===== src/Ens/Roles/Tests.antt =====
-- An agent that may trade and vote.
use xander.Prelude.{◌≡◌, refl, true, false, some, none, [], ◌∷◌}
use xander.Ens.Roles.{AgentRole, actions_from_bitmap, agent_role_for_action, role_bit}
use xander.Ens.Roles.Laws.{Choice, bitmap_of, actions_from_bitmap_of}

abbrev trader : Choice
trader = record {
  claim = false;
  trade = true;
  transfer = false;
  borrow = false;
  api_request = false;
  vote = true;
  x402_payment = false;
}

trade_bit : agent_role_for_action "TRADE" ≡ some 68719476736
unfolding agent_role_for_action role_bit
trade_bit = refl

no_bit : agent_role_for_action "MINT" ≡ none
unfolding agent_role_for_action role_bit
no_bit = refl

actions_from_bitmap_of_example :
    actions_from_bitmap (bitmap_of trader) ≡ AgentRole.trade ∷ AgentRole.vote ∷ []
actions_from_bitmap_of_example = actions_from_bitmap_of trader
