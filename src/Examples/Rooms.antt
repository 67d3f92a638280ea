-- ===== src/Examples/Rooms.antt =====
-- The theorems on sessions and requests, in the room of World.
use choice.Base.{nat_eq, string_eq, lookup, ℕ, ◌≡◌, refl, ◌≢◌, false, none, some, arith}
use choice.Publisher.{made_publisher, new_publisher, handle_offer}
use choice.Peers.{
  with_channel, made_subscriber, new_subscriber, with_subscriber, with_publisher, new_peer,
}
use choice.Sessions.{found, added_peer, add_peer, get_peer, get_or_create_session, get_session}
use choice.Sessions.Membership.{add_peer_replaces}
use choice.Rpc.{Request, Decode, error, server_error, JoinParams}
use choice.Signaling.{with_session, outcome_of, handle_leave, handle_request, handle_join}
use choice.Signaling.Requests.{request_error_changes_nothing, joining, failed_join_stays}
use choice.Store.{ok, err}
use choice.Examples.World.{granting, refusing, world}

bob_again : (add_peer granting world 8 "bob" 30).1 ≡ ok 20
unfolding add_peer added_peer new_peer with_publisher with_subscriber new_publisher made_publisher
    new_subscriber made_subscriber with_channel
bob_again = refl

add_peer_replaces_example :
    let w' = (add_peer granting world 8 "bob" 30).0 in
    (get_peer w' 8 "bob" ≡ ok 20)
    × (◌≢◌ {A = ℕ} 20 7)
    × (w'.peers 7 ≡ world.peers 7)
    × ((w'.peers 20).closed ≡ false)
unfolding get_peer lookup found
add_peer_replaces_example =
    add_peer_replaces granting world 8 "bob" 30 7 20 refl (omega arith) bob_again

-- A decoder for the requests below.
abbrev decode : Decode
decode = record {
  request = λ _. none;
  join = λ _. some (record { session_id = "room"; peer_id = "eve"; offer = "sdp" });
  subscribe = λ _. none;
  candidate = λ _. none;
  answer = λ _. none;
  leave = λ _. some (record { session_id = "hall"; peer_id = "ann" });
  set_layer = λ _. none;
  get_layer = λ _. none;
}

abbrev leave_hall : Request
leave_hall = record { id = "1"; method = "leave"; params = "{}" }

no_hall :
    (handle_request granting decode 30 world leave_hall).1.outcome
    ≡ error server_error "session not found"
unfolding handle_request outcome_of handle_leave with_session get_session found lookup
no_hall = refl

request_error_changes_nothing_example :
    (handle_request granting decode 30 world leave_hall).0 ≡ world
request_error_changes_nothing_example =
    request_error_changes_nothing granting decode 30 world leave_hall server_error
      "session not found" refl refl no_hall

abbrev eve : JoinParams
eve = record { session_id = "room"; peer_id = "eve"; offer = "sdp" }

eve_joins : (joining refusing 30 world eve).1 ≡ ok 20
unfolding get_or_create_session lookup add_peer added_peer new_peer with_publisher with_subscriber
    new_publisher made_publisher new_subscriber made_subscriber with_channel
eve_joins = refl

eve_refused :
    handle_offer refusing
      (joining refusing 30 world eve).0
      ((joining refusing 30 world eve).0.peers 20).publisher
      "sdp"
    ≡ err "bad sdp"
unfolding handle_offer
eve_refused = refl

failed_join_stays_example :
    let v = (joining refusing 30 world eve).0 in
    (handle_join refusing decode 30 world "{}" ≡ (v, error server_error "bad sdp"))
    × (get_peer v (get_or_create_session world "room").1 "eve" ≡ ok 20)
failed_join_stays_example =
    failed_join_stays refusing decode 30 world "{}" eve 20 "bad sdp" refl eve_joins eve_refused
