-- ===== src/Server/Events/Steps.antt =====
-- apps/server/src/gateway/events.gateway.ts: the calls of its handlers, one after the other.
use kalen.Prelude.{ℕ, String, List, [], ◌∷◌}
use kalen.Prelude.StringSet.{StringSet}
use kalen.Identity.Token.{Jose}
use kalen.Server.Events.{
  Gateway, Effect, handle_disconnect, handle_auth, handle_subscribe, handle_unsubscribe,
  handle_typing, stop_typing, handle_presence,
}

pub data Call (Token : Type 0) : Type 0 where
  disconnects : (id : String) (rooms : StringSet) → Call Token
  auths : (id : String) (token : Token) (now : ℕ) → Call Token
  subscribes unsubscribes types types_no_more : (id conversation_id : String) → Call Token
  sets_presence : (id status : String) (rooms : StringSet) → Call Token

module _ {Token : Type 0} (j : Jose Token) (secret : String) where
  unfoldable pub step : Gateway → Call Token → Gateway × List Effect
  step g (disconnects id rooms) = handle_disconnect g id rooms
  step g (auths id token now) = handle_auth j g id token secret now
  step g (subscribes id c) = (g, handle_subscribe g id c)
  step g (unsubscribes id c) = (g, handle_unsubscribe g id c)
  step g (types id c) = (g, handle_typing g id c)
  step g (types_no_more id c) = (g, stop_typing g id c)
  step g (sets_presence id status rooms) = (g, handle_presence g id status rooms)

  -- the gateway after the calls
  unfoldable pub run : Gateway → List (Call Token) → Gateway
  unfolding step
  run g [] = g
  run g (c ∷ cs) = run (step g c).0 cs
