-- ===== src/Roster/Handling.antt =====
-- pkg/sfu/signaling.go: what a message on a WebSocket does to the roster.
use choice.Base.{
  if◌then◌else◌, ◌==◌, nat_eq, string_eq, beq→eq, Option-cases, lookup, ℕ, String, ◌≡◌, refl, ap,
  inl, inr, Bool, true, false, none, some, arith,
}
use choice.Rpc.{Request, Outcome, success, result, Decode}
use choice.Store.{Store, Env}
use choice.Store.Rooms.{Quiet, Quiet-refl, Silent-refl}
use choice.Sessions.{found, remove_peer, get_session}
use choice.Signaling.{with_session, handle_leave, outcome_of, handle_request, handle_message}
use choice.Roster.{
  is_some, listed, roster, Change, leave, stay, apply, ◌≈◌, Rooms, Quiet-SameMembers,
}
use choice.Roster.Changes.{Follows, SameMembers-Follows}
use choice.Roster.Leaving.{remove_peer-Follows}
use choice.Roster.Requests.{
  change_of_join, change_of_leave, handle_subscribe-Quiet, handle_candidate-Quiet,
  handle_answer_request-Quiet, handle_set_layer-Quiet, handle_get_layer-Quiet, handle_join-Follows,
}

unfoldable pub change_of_request : Env → Decode → ℕ → Store → Request → Change
unfolding change_of_join change_of_leave
change_of_request env decode conn w req =
    if req.method == "join"
    then change_of_join env decode conn w req.params
    else if req.method == "leave"
    then change_of_leave decode req.params
    else stay

-- What a message does to the roster: it is a request, or it does not parse.
unfoldable pub change_of_message : Env → Decode → ℕ → Store → String → Change
unfolding change_of_request
change_of_message env decode conn w message = elim (decode.request message) [
  | none ↦ stay
  | some req ↦ change_of_request env decode conn w req
]

stays : {w w' : Store} → Quiet w w' → Rooms w → Follows stay w w'
stays h r = SameMembers-Follows (Quiet-SameMembers h) r

-- Nobody leaves a session that is not there.
leave_unknown :
    (w : Store) (id peer_id : String)
    → lookup id w.sessions ≡ none
    → Rooms w
    → Follows (leave id peer_id) w w
unfolding ◌≈◌ roster apply is_some listed
leave_unknown w id peer_id n r = record {
  rooms = r;
  roster = (
    λ k. refl,
    λ k q. ground (
      arith,
      beq→eq id k,
      ap (λ x. is_some (listed w (lookup x w.sessions) q)) {x = id} {y = k},
      ap (λ o. is_some (listed w o q)) n,
    ),
  );
  next = omega arith;
  silent = Silent-refl w;
}

leave_session-Follows :
    (env : Env) (w : Store) (id peer_id : String)
    → Rooms w
    → Follows
        (leave id peer_id)
        w
        (with_session w (get_session w id) (λ s. (remove_peer env w s peer_id, result success))).0
unfolding with_session get_session found
leave_session-Follows env w id peer_id r = elim (Option-cases (lookup id w.sessions)) [
  | inl n ↦ rw n (leave_unknown w id peer_id n r)
  | inr (s, e) ↦ rw e (remove_peer-Follows env w id s peer_id r e)
]

handle_leave-Follows :
    (env : Env) (decode : Decode) (w : Store) (params : String)
    → Rooms w
    → Follows (change_of_leave decode params) w (handle_leave env decode w params).0
unfolding handle_leave change_of_leave
handle_leave-Follows env decode w params r = elim (Option-cases (decode.leave params)) [
  | inl n ↦ rw (n, handle_leave) (rw (n, change_of_leave) (stays (Quiet-refl w) r))
  | inr (p, n) ↦
      rw (n, handle_leave)
        (rw (n, change_of_leave) (leave_session-Follows env w p.session_id p.peer_id r))
]

-- The branch that the code takes.
by_branch :
    {c : Change} {w : Store} (x y : Store × Outcome) (b : Bool)
    → (b ≡ true → Follows c w x.0)
    → (b ≡ false → Follows c w y.0)
    → Follows c w (if b then x else y).0
by_branch x y true f g = f refl
by_branch x y false f g = g refl

-- A request of another method.
other_method :
    {w w' : Store} (c d : Change) (s m : String)
    → s == "join" ≡ false
    → s == "leave" ≡ false
    → m == s ≡ true
    → Quiet w w'
    → Rooms w
    → Follows (if m == "join" then c else if m == "leave" then d else stay) w w'
other_method {w} {w'} c d s m j l e h r =
    let here : m ≡ s = beq→eq m s e in
    let not_join : m == "join" ≡ false = rw here j in
    let not_leave : m == "leave" ≡ false = rw here l in rw not_join (rw not_leave (stays h r))

pub handle_request-Follows :
    (env : Env) (decode : Decode) (conn : ℕ) (w : Store) (req : Request)
    → Rooms w
    → Follows (change_of_request env decode conn w req) w (handle_request env decode conn w req).0
unfolding handle_request outcome_of change_of_request
handle_request-Follows env decode conn w req r =
    let m = req.method in
    let a = req.params in
    let c = change_of_join env decode conn w a in
    let d = change_of_leave decode a in
    by_branch _ _ (m == "join") (λ e. rw e (handle_join-Follows env decode conn w a r))
      (λ j.
        by_branch _ _ (m == "subscribe")
          (λ e.
            other_method c d "subscribe" m refl refl e (handle_subscribe-Quiet env decode w a) r)
          (λ _.
            by_branch _ _ (m == "candidate")
              (λ e.
                other_method c d "candidate" m refl refl e (handle_candidate-Quiet env decode w a)
                  r)
              (λ _.
                by_branch _ _ (m == "answer")
                  (λ e.
                    other_method c d "answer" m refl refl e
                      (handle_answer_request-Quiet env decode w a) r)
                  (λ _.
                    by_branch _ _ (m == "leave")
                      (λ e. rw j (rw e (handle_leave-Follows env decode w a r)))
                      (λ l.
                        by_branch _ _ (m == "setLayer")
                          (λ e.
                            other_method c d "setLayer" m refl refl e
                              (handle_set_layer-Quiet decode w a) r)
                          (λ _.
                            by_branch _ _ (m == "getLayer")
                              (λ e.
                                other_method c d "getLayer" m refl refl e
                                  (handle_get_layer-Quiet decode w a) r)
                              (λ _. rw j (rw l (stays (Quiet-refl w) r)))))))))

-- One message.
pub handle_message-Follows :
    (env : Env) (decode : Decode) (conn : ℕ) (w : Store) (message : String)
    → Rooms w
    → Follows
        (change_of_message env decode conn w message)
        w
        (handle_message env decode conn w message).0
unfolding handle_message change_of_message
handle_message-Follows env decode conn w message r = elim (Option-cases (decode.request message)) [
  | inl n ↦ rw (n, handle_message) (rw (n, change_of_message) (stays (Quiet-refl w) r))
  | inr (req, n) ↦
      rw (n, handle_message)
        (rw (n, change_of_message) (handle_request-Follows env decode conn w req r))
]
