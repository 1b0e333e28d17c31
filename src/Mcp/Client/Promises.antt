-- ===== src/Mcp/Client/Promises.antt =====
-- The promises of the client's requests, over any run.
use kalen.Prelude.{
  ℕ, ◌+◌, ◌≤◌, ◌<◌, String, ◌≡◌, refl, ap, ◌∙◌, true, Option, none, some, List, [], ◌∷◌, ◌++◌, map,
  any, eqb, arith, Bool-cases, inl, inr,
}
use kalen.Shared.Json.{Json}
use kalen.Mcp.Client.{
  ClientConfig, Client, ClientState, disconnected, connecting, connected, error, MessageId, number,
  text, Response, ServerInfo, Settled, resolved, rejected, without, can_post, send_request,
  time_out, handle_message, cleanup, disconnect, begin_connect, set_endpoint, fail_connect,
  finish_connect,
}
use kalen.Mcp.Client.Runs.{
  World, Act, send, fire, receive, close, connect, endpoint, ends_connect, step, run, opened, id_of,
  occurs, settlements, answers, occurs-append, occurs-without, occurs-any, settlements-append,
  answers-append, all_rejected,
}

-- What holds of an id: its request is in the table or has been answered, at most once together;
-- neither, if it has not been given yet; and if it has, it is in the table or was settled.
pub record Kept (w : World) (i : ℕ) : Type 0 where
  pub once : occurs i w.client.pending + answers i w.settled ≤ 1
  pub unused : w.client.next_id ≤ i → occurs i w.client.pending + answers i w.settled ≡ 0
  pub known : 1 ≤ i → i < w.client.next_id → 1 ≤ occurs i w.client.pending + settlements i w.settled

send-Kept :
    (w : World) (method : String) (params : Json) (i : ℕ)
    → Kept w i
    → Kept (step w (send method params)) i
unfolding step send_request answers settlements occurs
send-Kept w method params i h =
    let more = occurs-append i w.client.pending (w.client.next_id ∷ []) in
    elim (Bool-cases (can_post w.client.message_endpoint)) [
      | inl can ↦ rw can (record {
        once = ground (arith, more, h.once, h.unused);
        unused = λ u. ground (arith, more, h.once, h.unused);
        known = λ a b. ground (arith, more, h.known);
      })
      | inr cannot ↦ rw cannot (record {
        once = ground (arith, more, h.once, h.unused);
        unused = λ u. ground (arith, more, h.once, h.unused);
        known = λ a b. ground (arith, more, h.known);
      })
    ]

leave-Kept :
    (w : World) (c : Client) (s : Settled) (i : ℕ)
    → c.next_id ≡ w.client.next_id
    → c.pending ≡ without (id_of s) w.client.pending
    → any (eqb (id_of s)) w.client.pending ≡ true
    → Kept w i
    → Kept (record { client = c; settled = s ∷ w.settled }) i
unfolding answers settlements
leave-Kept w c s i n p there h =
    let fewer = ap (occurs i) p ∙ occurs-without i (id_of s) w.client.pending in
    let some_of = occurs-any (id_of s) w.client.pending there in
    elim (Bool-cases (eqb i (id_of s))) [
      | inl same ↦
          let e : i ≡ id_of s = ground arith in
          let some_here : 1 ≤ occurs i w.client.pending = rw e some_of in
          record {
            once = ground (arith, fewer, some_here, h.once, same);
            unused = λ u. ground (arith, fewer, some_here, h.unused, n, same);
            known = λ a b. ground (arith, e);
          }
      | inr other ↦ record {
        once = ground (arith, fewer, h.once, other);
        unused = λ u. ground (arith, fewer, h.unused, n, other);
        known = λ a b. ground (arith, fewer, h.known, n, other);
      }
    ]

-- all that is in the table is rejected, and the table is empty
empty-Kept :
    (w : World) (c : Client) (i : ℕ)
    → c.next_id ≡ w.client.next_id
    → c.pending ≡ []
    → Kept w i
    → Kept
        (record {
          client = c;
          settled = map (λ j. rejected j "Connection closed") w.client.pending ++ w.settled;
        })
        i
unfolding occurs
empty-Kept w c i n p h =
    let out = map (λ j. rejected j "Connection closed") w.client.pending in
    let (all, no_answers) = all_rejected i w.client.pending "Connection closed" in
    let none_left : occurs i c.pending ≡ 0 = rw p refl in
    record {
      once = omega (arith, answers-append i out w.settled, no_answers, none_left, h.once);
      unused =
          λ u. omega (arith, answers-append i out w.settled, no_answers, none_left, n, h.unused);
      known = λ a b. omega (arith, settlements-append i out w.settled, all, n, h.known);
    }

-- neither the table nor the next id has changed
same-Kept :
    (w : World) (c : Client) (i : ℕ)
    → c.next_id ≡ w.client.next_id
    → c.pending ≡ w.client.pending
    → Kept w i
    → Kept (record { client = c; settled = w.settled }) i
same-Kept w c i n p h =
    let left : occurs i c.pending ≡ occurs i w.client.pending = ap (occurs i) p in
    record {
      once = omega (arith, left, h.once);
      unused = λ u. omega (arith, left, n, h.unused);
      known = λ a b. omega (arith, left, n, h.known);
    }

close-Kept : (w : World) (i : ℕ) → Kept w i → Kept (step w close) i
unfolding step disconnect cleanup
close-Kept w i h = empty-Kept w (step w close).client i refl refl h

connect-Kept : (w : World) (i : ℕ) → Kept w i → Kept (step w connect) i
unfolding step begin_connect
connect-Kept w i h = go w.client.state refl
  where
    go : (s : ClientState) → w.client.state ≡ s → Kept (step w connect) i
    go disconnected e = rw (e, step) (same-Kept w _ i refl refl h)
    go connecting e = rw (e, step) (same-Kept w _ i refl refl h)
    go connected e = rw (e, step) (same-Kept w _ i refl refl h)
    go error e = rw (e, step) (same-Kept w _ i refl refl h)

ends-Kept :
    (w : World) (answer : Option (Option Json × Option ServerInfo)) (i : ℕ)
    → Kept w i
    → Kept (step w (ends_connect answer)) i
unfolding step finish_connect fail_connect cleanup
ends-Kept w none i h = empty-Kept w (step w (ends_connect none)).client i refl refl h
ends-Kept w (some (capabilities, info)) i h =
    elim (Bool-cases (can_post w.client.message_endpoint)) [
      | inl can ↦ rw can (same-Kept w _ i refl refl h)
      | inr cannot ↦ rw cannot (empty-Kept w _ i refl refl h)
    ]

fire-Kept :
    (w : World) (id : ℕ) (method : String) (i : ℕ) → Kept w i → Kept (step w (fire id method)) i
unfolding step time_out
fire-Kept w id method i h = elim (Bool-cases (any (eqb id) w.client.pending)) [
  | inl there ↦ rw there (leave-Kept w _ (rejected id _) i refl refl there h)
  | inr gone ↦ rw gone h
]

receive-Kept :
    (w : World) (response : Option Response) (i : ℕ) → Kept w i → Kept (step w (receive response)) i
unfolding step handle_message
receive-Kept w none i h = record { once = h.once; unused = h.unused; known = h.known }
receive-Kept w (some r) i h = go r.id refl
  where
    go : (m : MessageId) → r.id ≡ m → Kept (step w (receive (some r))) i
    go (text s) e = rw (e, step) (record { once = h.once; unused = h.unused; known = h.known })
    go (number id) e =
        rw (e, step)
          (elim (Bool-cases (any (eqb id) w.client.pending)) [
            | inl there ↦
                rw there
                  (leave-Kept w _ (resolved id (record r { id = number id })) i refl refl there h)
            | inr gone ↦ rw gone (record { once = h.once; unused = h.unused; known = h.known })
          ])

endpoint-Kept : (w : World) (url : String) (i : ℕ) → Kept w i → Kept (step w (endpoint url)) i
unfolding step set_endpoint
endpoint-Kept w url i h = same-Kept w (step w (endpoint url)).client i refl refl h

step-Kept : (w : World) (a : Act) (i : ℕ) → Kept w i → Kept (step w a) i
step-Kept w (send method params) i h = send-Kept w method params i h
step-Kept w (fire id method) i h = fire-Kept w id method i h
step-Kept w (receive response) i h = receive-Kept w response i h
step-Kept w close i h = close-Kept w i h
step-Kept w connect i h = connect-Kept w i h
step-Kept w (endpoint url) i h = endpoint-Kept w url i h
step-Kept w (ends_connect answer) i h = ends-Kept w answer i h

run-Kept : (w : World) (acts : List Act) (i : ℕ) → Kept w i → Kept (run w acts) i
unfolding run
run-Kept w [] i h = h
run-Kept w (a ∷ acts) i h = run-Kept (step w a) acts i (step-Kept w a i h)

opened-Kept : (config : ClientConfig) (i : ℕ) → Kept (opened config) i
unfolding occurs answers settlements
opened-Kept config i = record { once = omega arith; unused = λ u. refl; known = λ a b. omega arith }

-- Whatever a client has done since it was new (begun to connect, got an endpoint, connected or
-- failed to, sent requests, had them answered or timed out, disconnected): the promise of a
-- request was answered at most once, and not at all while the request is in the table.
pub answered_at_most_once :
    (config : ClientConfig) (acts : List Act) (i : ℕ)
    → let w = run (opened config) acts in occurs i w.client.pending + answers i w.settled ≤ 1
answered_at_most_once config acts i = (run-Kept (opened config) acts i (opened-Kept config i)).once

-- When a client disconnects, whatever it has done since it was new (begun to connect, got an
-- endpoint, connected or failed to, sent requests, had them answered or timed out, disconnected),
-- no request is left in the table, and the promise of every request that it ever sent has been
-- settled.
pub disconnect_settles_all :
    (config : ClientConfig) (acts : List Act) (i : ℕ)
    → 1 ≤ i
    → i < (run (opened config) acts).client.next_id
    → let w = step (run (opened config) acts) close in
      (w.client.pending ≡ []) × (1 ≤ settlements i w.settled)
unfolding step disconnect cleanup occurs
disconnect_settles_all config acts i a b =
    let w = run (opened config) acts in
    let h = close-Kept w i (run-Kept (opened config) acts i (opened-Kept config i)) in
    (refl, omega (arith, h.known a b))
