-- ===== src/A2a/Cards/Lookups.antt =====
-- What the lookups of cards give after a registration and after an update.
use kalen.Prelude.{ℕ, String, ◌≡◌, refl, ◌≢◌, none, some, arith, ok, eq_iff, eq_refl}
use kalen.Prelude.Dict.{lookup, insert, lookup-insert}
use kalen.Shared.Card.{AgentCard}
use kalen.A2a.Cards.{
  Platform, CardEntry, CardService, CardUpdates, merge, get_card_by_url, get_card_by_name,
  validate_agent_card, store_card, register_card, update_card, truthy,
}

valid_url : (p : Platform) (card : AgentCard) → validate_agent_card p card ≡ none → card.url ≢ ""
unfolding validate_agent_card
valid_url p card v = ground (arith, eq_iff card.url "")

abbrev pub entry_at : AgentCard → ℕ → CardEntry
entry_at card now = record {
  card = card;
  registered_at = now;
  updated_at = now;
  verified = truthy card.signature;
}

-- A card that passes the checks, whose url and name are not in use, is registered: both lookups
-- give it, and the cards of other urls are as they were. It counts as verified whenever it
-- carries a signature, also one that no check has looked at.
pub register_card_lem :
    (p : Platform) (s : CardService) (card : AgentCard) (now : ℕ)
    → validate_agent_card p card ≡ none
    → lookup card.url s.cards ≡ none
    → lookup card.name s.name_index ≡ none
    → let (answer, s') = register_card p s card now in
      (answer ≡ ok card)
      × (get_card_by_url s' card.url ≡ some card)
      × (get_card_by_name s' card.name ≡ some card)
      × ((url : String) → url ≢ card.url → get_card_by_url s' url ≡ get_card_by_url s url)
      × (lookup card.url s'.cards ≡ some (entry_at card now))
unfolding register_card store_card get_card_by_url get_card_by_name
register_card_lem p s card now v free_url free_name =
    let u = lookup-insert card.url card.url (entry_at card now) s.cards in
    let n = lookup-insert card.name card.name card.url s.name_index in
    let e : register_card p s card now ≡ (ok card, store_card p s card.url card now) =
      rw (v, register_card) (rw (free_url) (rw free_name refl)) in
    rw e (
      refl,
      ground (arith, u, eq_refl card.url),
      ground (
        arith,
        u,
        n,
        eq_refl card.url,
        eq_refl card.name,
        eq_iff card.url "",
        valid_url p card v,
      ),
      λ url other.
          ground
            (arith, lookup-insert card.url url (entry_at card now) s.cards, eq_iff card.url url),
      ground (arith, u, eq_refl card.url),
    )

-- An update that gives a card another name leaves the index of names as it is: the old name gives
-- the card with its new name, and the new name gives what it gave.
pub update_card_renames :
    (p : Platform) (s : CardService) (url : String) (entry : CardEntry) (u : CardUpdates)
    (n : String) (now : ℕ)
    → lookup url s.cards ≡ some entry
    → lookup entry.card.name s.name_index ≡ some url
    → validate_agent_card p (merge entry.card u url) ≡ none
    → u.name ≡ some n
    → let (answer, s') = update_card p s url u none now in
      (answer ≡ ok (merge entry.card u url))
      × ((merge entry.card u url).name ≡ n)
      × (get_card_by_name s' entry.card.name ≡ some (merge entry.card u url))
      × (lookup n s'.name_index ≡ lookup n s.name_index)
unfolding update_card merge get_card_by_name get_card_by_url
update_card_renames p s url entry u n now found named v renamed =
    let card = merge entry.card u url in
    let e = record entry { card = card; updated_at = now } in
    let done : update_card p s url u none now
        ≡ (ok card, record s { cards = insert url e s.cards }) =
      rw (found, update_card) (rw (v) refl) in
    rw done (
      refl,
      rw renamed refl,
      ground
          (arith, lookup-insert url url e s.cards, eq_refl url, eq_iff url "", valid_url p card v),
      refl,
    )
