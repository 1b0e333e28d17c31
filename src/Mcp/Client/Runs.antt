-- ===== src/Mcp/Client/Runs.antt =====
-- Runs of the client, with what they settle, counted by the ids of the requests.
use kalen.Prelude.{
  ℕ, ◌+◌, ◌≤◌, String, ◌≡◌, refl, Bool, true, false, Option, List, [], ◌∷◌, ◌++◌, map, any, to_ℕ,
  eqb, arith, if◌then◌else◌,
}
use kalen.Shared.Json.{Json}
use kalen.Mcp.Client.{
  ClientConfig, Client, Response, Settled, resolved, rejected, new_client, ServerInfo, without,
  send_request, time_out, handle_message, disconnect, begin_connect, set_endpoint, finish_connect,
}

-- The client with all that has happened to promises, the last first.
pub record World : Type 0 where
  pub client : Client
  pub settled : List Settled

-- What the environment calls. The two parts of `connectToServer` are calls of their own, since others
-- come between them, as the answer to `initialize` does. A timer is cleared when its request leaves
-- the table, so that one that fires belongs to a request that is there.
pub data Act : Type 0 where
  send : (method : String) → Json → Act
  fire : ℕ → (method : String) → Act
  receive : Option Response → Act
  close : Act
  connect : Act
  endpoint : String → Act
  ends_connect : Option (Option Json × Option ServerInfo) → Act

abbrev pub then_settled : World → Client × List Settled → World
then_settled w (c, out) = record { client = c; settled = out ++ w.settled }

unfoldable pub step : World → Act → World
step w (send method params) =
    let (c, _, out) = send_request w.client method params in then_settled w (c, out)
step w (fire id method) =
    if any (eqb id) w.client.pending then then_settled w (time_out w.client id method) else w
step w (receive response) = then_settled w (handle_message w.client response)
step w close = then_settled w (disconnect w.client)
step w connect = then_settled w ((begin_connect w.client).1, [])
step w (endpoint url) = then_settled w (set_endpoint w.client url, [])
step w (ends_connect answer) =
    let (_, c, out) = finish_connect w.client answer in then_settled w (c, out)

unfoldable pub run : World → List Act → World
run w [] = w
run w (a ∷ acts) = run (step w a) acts

abbrev pub opened : ClientConfig → World
opened config = record { client = new_client config; settled = [] }

abbrev pub id_of : Settled → ℕ
id_of (resolved i r) = i
id_of (rejected i e) = i

abbrev is_resolved : Settled → Bool
is_resolved (resolved i r) = true
is_resolved (rejected i e) = false

-- how often an id stands in the table
unfoldable pub occurs : ℕ → List ℕ → ℕ
occurs i [] = 0
occurs i (j ∷ js) = to_ℕ (eqb j i) + occurs i js

-- how often the promise of an id was settled, and how often with an answer
unfoldable pub settlements : ℕ → List Settled → ℕ
settlements i [] = 0
settlements i (s ∷ ss) = to_ℕ (eqb (id_of s) i) + settlements i ss

unfoldable pub answers : ℕ → List Settled → ℕ
answers i [] = 0
answers i (s ∷ ss) = (if is_resolved s then to_ℕ (eqb (id_of s) i) else 0) + answers i ss

pub occurs-append : (i : ℕ) (xs ys : List ℕ) → occurs i (xs ++ ys) ≡ occurs i xs + occurs i ys
unfolding occurs
occurs-append i [] ys = omega arith
occurs-append i (x ∷ xs) ys = omega (arith, occurs-append i xs ys)

pub occurs-without :
    (i j : ℕ) (xs : List ℕ) → occurs i (without j xs) ≡ (if eqb i j then 0 else occurs i xs)
unfolding occurs
occurs-without i j [] = ground arith
occurs-without i j (x ∷ xs) = ground (arith, occurs-without i j xs)

pub occurs-any : (i : ℕ) (xs : List ℕ) → any (eqb i) xs ≡ true → 1 ≤ occurs i xs
unfolding occurs
occurs-any i [] h = cc
occurs-any i (x ∷ xs) h = ground (arith, occurs-any i xs)

pub settlements-append :
    (i : ℕ) (xs ys : List Settled) → settlements i (xs ++ ys) ≡ settlements i xs + settlements i ys
unfolding settlements
settlements-append i [] ys = omega arith
settlements-append i (x ∷ xs) ys = omega (arith, settlements-append i xs ys)

pub answers-append :
    (i : ℕ) (xs ys : List Settled) → answers i (xs ++ ys) ≡ answers i xs + answers i ys
unfolding answers
answers-append i [] ys = omega arith
answers-append i (x ∷ xs) ys = omega (arith, answers-append i xs ys)

-- a rejection of all that is in the table
pub all_rejected :
    (i : ℕ) (xs : List ℕ) (e : String)
    → (settlements i (map (λ j. rejected j e) xs) ≡ occurs i xs)
      × (answers i (map (λ j. rejected j e) xs) ≡ 0)
unfolding settlements answers occurs
all_rejected i [] e = (refl, refl)
all_rejected i (x ∷ xs) e = let (p, q) = all_rejected i xs e in (omega (arith, p), omega (arith, q))
