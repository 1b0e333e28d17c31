-- ===== src/Server/Events/Tests.antt =====
-- The gateway of events on small inputs, and the theorems applied to them.
use kalen.Prelude.{String, ◌≡◌, ◌≢◌, refl, true, none, some, List, [], ◌∷◌, arith, eq_iff}
use kalen.Prelude.Dict.{lookup, insert}
use kalen.Prelude.StringSet.{has, add, delete}
use kalen.Prelude.SetMap.{set_of, add_to}
use kalen.Identity.Token.{
  Claims, TokenPayload, human_payload, issue_human_access_token, issue_human_refresh_token,
  verify_token,
}
use kalen.Identity.Token.Plain.{plain}
use kalen.Server.Events.{
  Gateway, new_gateway, client, room_of, emit, join, auth_failure, unauthorized, presence_update,
  update_presence, is_last, handle_disconnect, accept, handle_auth, handle_subscribe,
}
use kalen.Server.Events.Steps.{Call, auths, subscribes, disconnects, step, run}
use kalen.Server.Events.Tracking.{IsTracked, run-new_gateway-IsTracked}
use kalen.Server.Events.Offline.{change_of_user_leaves_socket}
use kalen.Server.Events.Access.{AreEntitled, step-AreEntitled}

abbrev first : Claims × String
first = issue_human_access_token plain "u1" "key" 0

abbrev second : Claims × String
second = issue_human_access_token plain "u2" "key" 0

abbrev payload : String → TokenPayload
payload user = human_payload user "access"

verify_first : verify_token plain first "key" 2000 ≡ some (payload "u1")
unfolding verify_token issue_human_access_token
verify_first = refl

verify_second : verify_token plain second "key" 3000 ≡ some (payload "u2")
unfolding verify_token issue_human_access_token
verify_second = refl

-- one socket of the first user
abbrev online : List (Call (Claims × String))
online = auths "s1" first 2000 ∷ []

abbrev gateway : Gateway
gateway = run plain "key" new_gateway online

event_tests :
    ((handle_auth plain new_gateway "s1"
        (issue_human_refresh_token plain "u1" "key" 0)
        "key"
        2000).1
      ≡ emit (client "s1") auth_failure ∷ [])
    × (handle_subscribe new_gateway "s1" "r1" ≡ emit (client "s1") unauthorized ∷ [])
    × (handle_subscribe gateway "s1" "r1" ≡ join "s1" "r1" ∷ [])
    × ((handle_disconnect gateway "s1" ("s1" ∷ "r1" ∷ [])).1
        ≡ emit (room_of "s1" "r1") (presence_update none "offline") ∷ [])
unfolding handle_auth handle_subscribe handle_disconnect update_presence run step accept
    issue_human_refresh_token issue_human_access_token lookup insert verify_token add delete add_to
    is_last
event_tests = (refl, refl, refl, refl)

run-new_gateway-IsTracked_example : IsTracked (run plain "key" new_gateway online)
run-new_gateway-IsTracked_example = run-new_gateway-IsTracked plain "key" online

step-AreEntitled_example :
    AreEntitled plain "key" online (step plain "key" gateway (subscribes "s1" "r1")).1
step-AreEntitled_example = step-AreEntitled plain "key" online (subscribes "s1" "r1")

users_differ : ◌≢◌ {A = String} "u1" "u2"
users_differ = ground (arith, eq_iff "u1" "u2")

change_of_user_leaves_socket_example :
    let calls = auths "s1" first 2000 ∷ auths "s1" second 3000 ∷ disconnects "s1" [] ∷ [] in
    let g = run plain "key" new_gateway calls in
    (has "s1" (set_of g.user_sockets "u1") ≡ true) × (lookup "s1" g.socket_identities ≡ none)
change_of_user_leaves_socket_example =
    change_of_user_leaves_socket plain "key" new_gateway "s1" first second 2000 3000 []
      (payload "u1") (payload "u2") verify_first refl verify_second refl users_differ
