-- ===== src/Signaling.antt =====
-- pkg/sfu/signaling.go: the handlers of the requests of one WebSocket, and its loop. Encoding a response does not
-- fail. The goroutine that `handleJoin` starts runs at once.
pub mod Requests
use choice.Base.{
  if◌then◌else◌, ◌==◌, nat_eq, string_eq, ℕ, String, not, Option, none, some, List, [], ◌∷◌,
}
use choice.Rpc.{
  Request, Reply, Outcome, Response, JoinParams, SubscribeParams, CandidateParams, AnswerParams,
  LeaveParams, SetLayerParams, GetLayerParams, Decode, parse_error, invalid_params,
  method_not_found, server_error, answer, success, layers, result, error,
}
use choice.Store.{Store, Env, Result, ok, err}
use choice.Peers.{
  peer_handle_offer, peer_handle_answer, peer_set_layer, peer_get_layer, add_ice_candidate,
}
use choice.Sessions.{
  add_peer, get_peer, remove_peer, session_subscribe, notify_existing_tracks, get_or_create_session,
  get_session,
}

-- The result of a handler, without the request's id.
abbrev bad_params : Store → Store × Outcome
bad_params w = (w, error invalid_params "Invalid params")

-- A session, and then a peer of it; the response to an error is the same in every handler.
unfoldable pub with_session : Store → Result ℕ → (ℕ → Store × Outcome) → Store × Outcome
with_session w (err e) k = (w, error server_error e)
with_session w (ok s) k = k s

unfoldable pub with_peer : Store → String → String → (ℕ → Store × Outcome) → Store × Outcome
unfolding with_session
with_peer w session_id peer_id k =
    with_session w (get_session w session_id) (λ s. with_session w (get_peer w s peer_id) k)

unfoldable pub done : Store × Option String → Store × Outcome
done (w, some e) = (w, error server_error e)
done (w, none) = (w, result success)

unfoldable pub joined : Env → String → ℕ → Store × Result ℕ → Store × Outcome
joined env offer s (w, err e) = (w, error server_error e)
joined env offer s (w, ok p) =
    let w' = notify_existing_tracks env w s p in
    elim (peer_handle_offer env w p offer) [
      | err e ↦ (w, error server_error e)
      | ok a ↦ (w', result (answer a))
    ]

unfoldable pub handle_join : Env → Decode → ℕ → Store → String → Store × Outcome
unfolding joined
handle_join env decode conn w params = elim (decode.join params) [
  | none ↦ bad_params w
  | some p ↦
      let (w', s) = get_or_create_session w p.session_id in
      joined env p.offer s (add_peer env w' s p.peer_id conn)
]

unfoldable pub handle_subscribe : Env → Decode → Store → String → Store × Outcome
unfolding with_session done
handle_subscribe env decode w params = elim (decode.subscribe params) [
  | none ↦ bad_params w
  | some p ↦
      with_session w (get_session w p.session_id)
        (λ s. done (session_subscribe env w s p.peer_id p.target_peer_id))
]

unfoldable pub handle_candidate : Env → Decode → Store → String → Store × Outcome
unfolding with_peer done
handle_candidate env decode w params = elim (decode.candidate params) [
  | none ↦ bad_params w
  | some p ↦
      with_peer w p.session_id p.peer_id
        (λ peer. done (w, add_ice_candidate env w peer p.candidate p.target))
]

unfoldable pub handle_answer_request : Env → Decode → Store → String → Store × Outcome
unfolding with_peer done
handle_answer_request env decode w params = elim (decode.answer params) [
  | none ↦ bad_params w
  | some p ↦
      with_peer w p.session_id p.peer_id (λ peer. done (peer_handle_answer env w peer p.answer))
]

unfoldable pub handle_leave : Env → Decode → Store → String → Store × Outcome
unfolding with_session
handle_leave env decode w params = elim (decode.leave params) [
  | none ↦ bad_params w
  | some p ↦
      with_session w (get_session w p.session_id)
        (λ s. (remove_peer env w s p.peer_id, result success))
]

unfoldable pub handle_set_layer : Decode → Store → String → Store × Outcome
unfolding with_peer
handle_set_layer decode w params = elim (decode.set_layer params) [
  | none ↦ bad_params w
  | some p ↦
      with_peer w p.session_id p.peer_id
        (λ peer. (peer_set_layer w peer p.track_id p.layer, result success))
]

unfoldable pub known_layers : Store → Option (String × String) → Store × Outcome
known_layers w none = (w, error server_error "Track not found")
known_layers w (some (current, target)) = (w, result (layers current target))

unfoldable pub handle_get_layer : Decode → Store → String → Store × Outcome
unfolding with_peer known_layers
handle_get_layer decode w params = elim (decode.get_layer params) [
  | none ↦ bad_params w
  | some p ↦
      with_peer w p.session_id p.peer_id (λ peer. known_layers w (peer_get_layer w peer p.track_id))
]

unfoldable pub outcome_of : Env → Decode → ℕ → Store → Request → Store × Outcome
outcome_of env decode conn w req =
    if req.method == "join"
    then handle_join env decode conn w req.params
    else if req.method == "subscribe"
    then handle_subscribe env decode w req.params
    else if req.method == "candidate"
    then handle_candidate env decode w req.params
    else if req.method == "answer"
    then handle_answer_request env decode w req.params
    else if req.method == "leave"
    then handle_leave env decode w req.params
    else if req.method == "setLayer"
    then handle_set_layer decode w req.params
    else if req.method == "getLayer"
    then handle_get_layer decode w req.params
    else (w, error method_not_found "Method not found")

-- `handleRequest`
unfoldable pub handle_request : Env → Decode → ℕ → Store → Request → Store × Response
unfolding outcome_of
handle_request env decode conn w req =
    let (w', outcome) = outcome_of env decode conn w req in
    (w', record { id = req.id; outcome = outcome })

-- One message of `run`; a response to a message that does not parse has no id.
unfoldable pub handle_message : Env → Decode → ℕ → Store → String → Store × Option String × Outcome
handle_message env decode conn w message = elim (decode.request message) [
  | none ↦ (w, none, error parse_error "Parse error")
  | some req ↦
      let (w', response) = handle_request env decode conn w req in
      (w', some response.id, response.outcome)
]

-- `run`, over the messages that are read before the error that ends the loop, each with what the libraries
-- answer while it is handled; the responses in order.
unfoldable pub run_handler :
    Decode → ℕ → Store → List (Env × String) → Store × List (Option String × Outcome)
run_handler decode conn w [] = (w, [])
run_handler decode conn w ((env, message) ∷ messages) =
    let (w', id, outcome) = handle_message env decode conn w message in
    let (w'', responses) = run_handler decode conn w' messages in (w'', (id, outcome) ∷ responses)
