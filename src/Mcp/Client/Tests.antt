-- ===== src/Mcp/Client/Tests.antt =====
-- The client on small inputs, and the theorems applied to them.
use kalen.Prelude.{◌+◌, ◌≤◌, ◌≡◌, refl, none, some, List, [], ◌∷◌, arith}
use kalen.Shared.Json.{null}
use kalen.Mcp.Client.{
  ClientConfig, sse, number, Response, send_request, time_out, handle_message, cleanup, disconnect,
  connected, error, begin_connect, set_endpoint, finish_connect, fail_connect,
}
use kalen.Mcp.Client.Runs.{
  Act, send, receive, close, connect, endpoint, ends_connect, step, run, opened, occurs, answers,
  settlements,
}
use kalen.Mcp.Client.Promises.{answered_at_most_once, disconnect_settles_all}

abbrev config : ClientConfig
config = record {
  endpoint = "https://x";
  transport = sse;
  connection_timeout = 10000;
  tool_call_timeout = 30000;
  server_name = "x";
}

abbrev response : Response
response = record { id = number 1; result = some null; error = none }

abbrev acts : List Act
acts =
    connect
    ∷ endpoint "https://x/messages"
    ∷ send "initialize" null
    ∷ receive (some response)
    ∷ ends_connect (some (none, none))
    ∷ send "tools/list" null
    ∷ send "tools/call" null
    ∷ receive (some (record response { id = number 3 }))
    ∷ []

running : Unit {0}
unfolding send_request time_out handle_message cleanup disconnect begin_connect set_endpoint
    finish_connect fail_connect step run occurs answers settlements
running = tt

-- A client that has connected: its third request has been answered, and the second waits until
-- the client disconnects.
run_test :
    let w = run (opened config) acts in
    let v = step w close in
    (w.client.state ≡ connected)
    × (w.client.pending ≡ 2 ∷ [])
    × (answers 3 w.settled ≡ 1)
    × (settlements 2 w.settled ≡ 0)
    × (v.client.pending ≡ [])
    × (settlements 2 v.settled ≡ 1)
unfolding running
run_test = (refl, refl, refl, refl, refl, refl)

-- A client with no endpoint rejects at once and keeps the request, which the failed connection
-- rejects again.
failed_test :
    let w = run (opened config) (connect ∷ send "initialize" null ∷ ends_connect none ∷ []) in
    (w.client.state ≡ error) × (settlements 1 w.settled ≡ 2)
unfolding running
failed_test = (refl, refl)

answered_at_most_once_example :
    occurs 1 (run (opened config) acts).client.pending
      + answers 1 (run (opened config) acts).settled
    ≤ 1
answered_at_most_once_example = answered_at_most_once config acts 1

disconnect_settles_all_example :
    ((step (run (opened config) acts) close).client.pending ≡ [])
    × (1 ≤ settlements 2 (step (run (opened config) acts) close).settled)
unfolding running
disconnect_settles_all_example = disconnect_settles_all config acts 2 (omega arith) (omega arith)
