-- ===== src/A2a/Cards/Tests.antt =====
-- Cards on small inputs, and the theorems applied to them.
use kalen.Prelude.{refl, true, false, none, some, [], ◌∷◌, ends_with}
use kalen.Prelude.Dict.{lookup, insert, erase}
use kalen.Prelude.StringSet.{has}
use kalen.Shared.Card.{AgentCard}
use kalen.A2a.Cards.{
  Platform, body, CardService, CardUpdates, merge, no_cards, get_card_by_url, get_card_by_name,
  validate_agent_card, register_card, update_card, fetch_and_cache_card,
}
use kalen.A2a.Cards.Checked.{
  IsWellFormed, register, fetch, after_call, after_calls, get_card_by_url-IsWellFormed,
}

-- a platform that signs everything alike and takes every url
abbrev simple : Platform
simple = record {
  sign_agent_card = λ card key. some "signed";
  verify_agent_card_signature = λ card. false;
  url_origin = λ u. some u;
}

abbrev card : AgentCard
card = record {
  name = "bot(ai)";
  url = "https://bot";
  description = none;
  capabilities =
      some
        (record { streaming = true; push_notifications = false; state_transition_history = true });
  endpoints = some [];
  authentication = some (record { scheme = "none"; scopes = none });
  version = none;
  public_key = none;
  signature = some "forged";
}

opened : Unit {0}
unfolding lookup insert erase has ends_with get_card_by_url get_card_by_name validate_agent_card
    register_card update_card fetch_and_cache_card after_call after_calls merge
opened = tt

abbrev registered : CardService
registered = (register_card simple no_cards card 10).1

abbrev renaming : CardUpdates
renaming = record {
  name = some "new(ai)";
  description = none;
  capabilities = none;
  endpoints = none;
  authentication = none;
  version = none;
  public_key = none;
  signature = none;
}

get_card_by_url-IsWellFormed_example : IsWellFormed simple card
unfolding opened
get_card_by_url-IsWellFormed_example =
    get_card_by_url-IsWellFormed simple
      (register card 10 ∷ fetch "https://other" 300 20 (body card) ∷ []) "https://other" card refl
