-- ===== src/Server/Rooms.antt =====
-- pkg/sfu/sfu.go, pkg/sfu/session.go and pkg/sfu/signaling.go: the sessions and their peers over any messages and
-- callbacks.
use choice.Base.{
  ◌==◌, nat_eq, string_eq, lookup, String, ◌≡◌, refl, sym, ap, ◌∙◌, not, ◌&&◌, ◌||◌, Option, none,
  some, List, [], ◌∷◌,
}
use choice.Store.{Store, Env}
use choice.Store.Rooms.{Quiet, SameRooms, grows}
use choice.Roster.{
  Roster, roster, Change, open_session, enter, leave, stay, apply, ◌≈◌, Rooms, Quiet-SameMembers,
}
use choice.Roster.Changes.{Follows, SameMembers-Follows}
use choice.Roster.Handling.{change_of_message, handle_message-Follows}
use choice.Server.{
  new_sfu, Event, message, hang_up, track, reading, keyframe_due, data_message, publisher_candidate,
  subscriber_candidate, publisher_state, subscriber_state, serve, serve_all,
}
use choice.Server.Callbacks.{
  hang_up-Quiet, request_initial_keyframe-Quiet, on_data_message-Quiet,
  on_publisher_candidate-Quiet, on_subscriber_candidate-Quiet, on_publisher_state-Quiet,
  on_subscriber_state-Quiet, on_track-SameMembers,
}
use choice.Server.Feeding.{round-SameRooms}

-- What an event does to the roster: only a message does something.
unfoldable pub change_of : Env → Store → Event → Change
unfolding change_of_message
change_of env w (message conn decode text) = change_of_message env decode conn w text
change_of env w (hang_up conn) = stay
change_of env w (track p remote) = stay
change_of env w (reading r receiver layer_name t x) = stay
change_of env w (keyframe_due dt) = stay
change_of env w (data_message p content) = stay
change_of env w (publisher_candidate p candidate) = stay
change_of env w (subscriber_candidate s candidate) = stay
change_of env w (publisher_state p state) = stay
change_of env w (subscriber_state s state) = stay

-- The rooms stay well formed, and the roster follows the change.
pub record Tracks (c : Change) (w w' : Store) : Type 0 where
  pub rooms : Rooms w'
  pub roster : roster w' ≈ apply c (roster w)

Follows-Tracks : {c : Change} {w w' : Store} → Follows c w w' → Tracks c w w'
Follows-Tracks f = record { rooms = f.rooms; roster = f.roster }

quietly : {w w' : Store} → Quiet w w' → Rooms w → Tracks stay w w'
quietly h r = Follows-Tracks (SameMembers-Follows (Quiet-SameMembers h) r)

-- The same rooms, whatever the downtracks do: the roster does not see them.
SameRooms-Tracks : {w w' : Store} → SameRooms w w' → Rooms w → Tracks stay w w'
unfolding roster
SameRooms-Tracks {w} {w'} h r =
    let v : Store = record w' {
      down_tracks = w.down_tracks;
      forwarders = w.forwarders;
      log = w.log;
    } in
    let q : Quiet w v = grows h.session_table h.sessions h.peers h.next (λ dt l. refl) refl refl in
    let t = quietly q r in
    record {
      rooms = record {
        used = t.rooms.used;
        id = t.rooms.id;
        peers = λ id s q p e f.
            let x = t.rooms.peers id s q p e f in
            record { used = x.used; id = x.id; session = x.session; open_ = x.open_ };
      };
      roster = t.roster;
    }

pub serve-Tracks :
    (env : Env) (w : Store) (e : Event) → Rooms w → Tracks (change_of env w e) w (serve env w e)
unfolding serve change_of
serve-Tracks env w (message conn decode text) r =
    Follows-Tracks (handle_message-Follows env decode conn w text r)
serve-Tracks env w (hang_up conn) r = quietly (hang_up-Quiet w conn) r
serve-Tracks env w (track p remote) r =
    Follows-Tracks (SameMembers-Follows (on_track-SameMembers env w p remote) r)
serve-Tracks env w (reading n receiver layer_name t x) r =
    SameRooms-Tracks (round-SameRooms env w n receiver layer_name t x) r
serve-Tracks env w (keyframe_due dt) r = quietly (request_initial_keyframe-Quiet w dt) r
serve-Tracks env w (data_message p content) r = quietly (on_data_message-Quiet env w p content) r
serve-Tracks env w (publisher_candidate p candidate) r =
    quietly (on_publisher_candidate-Quiet env w p candidate) r
serve-Tracks env w (subscriber_candidate s candidate) r =
    quietly (on_subscriber_candidate-Quiet env w s candidate) r
serve-Tracks env w (publisher_state p state) r = quietly (on_publisher_state-Quiet env w p state) r
serve-Tracks env w (subscriber_state s state) r =
    quietly (on_subscriber_state-Quiet env w s state) r

-- The changes of a run, in order.
unfoldable pub changes : Store → List (Env × Event) → List Change
unfolding change_of
changes w [] = []
changes w ((env, e) ∷ es) = change_of env w e ∷ changes (serve env w e) es

-- The changes one after another, on the roster alone.
unfoldable pub replay : List Change → Roster → Roster
replay [] r = r
replay (c ∷ cs) r = replay cs (apply c r)

apply-cong : (c : Change) (r q : Roster) → r ≈ q → apply c r ≈ apply c q
unfolding ◌≈◌ apply
apply-cong (open_session s) r q (a, b) = (λ k. ap (λ x. s == k || x) (a k), b)
apply-cong (enter s p) r q (a, b) =
    (λ k. ap (λ x. s == k || x) (a k), λ k q. ap (λ x. (s == k && p == q) || x) (b k q))
apply-cong (leave s p) r q (a, b) = (a, λ k q. ap (λ x. not (s == k && p == q) && x) (b k q))
apply-cong stay r q h = h

replay-cong : (cs : List Change) (r q : Roster) → r ≈ q → replay cs r ≈ replay cs q
unfolding replay
replay-cong [] r q h = h
replay-cong (c ∷ cs) r q h = replay-cong cs (apply c r) (apply c q) (apply-cong c r q h)

≈-trans : (r q s : Roster) → r ≈ q → q ≈ s → r ≈ s
unfolding ◌≈◌
≈-trans r q s (a, b) (c, d) = (λ k. a k ∙ c k, λ k x. b k x ∙ d k x)

-- Whatever messages arrive on whatever WebSockets and whatever callbacks run, in any order and with any answers of
-- the libraries, the sessions and the peers that they list are those of the roster on which the joins and the leaves
-- are replayed; no other event changes it. (The rooms are well formed at the start.)
pub serve_all-refines :
    (w : Store) (es : List (Env × Event))
    → Rooms w
    → roster (serve_all w es) ≈ replay (changes w es) (roster w)
unfolding serve_all changes replay
serve_all-refines w [] r = unfold ◌≈◌ in (λ k. refl, λ k q. refl)
serve_all-refines w ((env, e) ∷ es) r =
    let t = serve-Tracks env w e r in
    let w₁ = serve env w e in
    ≈-trans _ _ _ (serve_all-refines w₁ es t.rooms)
      (replay-cong (changes w₁ es) (roster w₁) (apply (change_of env w e) (roster w)) t.roster)

-- Over any messages and callbacks, from well-formed rooms, the rooms stay well formed: each session stands at an
-- address in use under its own id, and each peer that a session lists is open and has that id and that session.
pub serve_all-Rooms : (w : Store) (es : List (Env × Event)) → Rooms w → Rooms (serve_all w es)
unfolding serve_all
serve_all-Rooms w [] r = r
serve_all-Rooms w ((env, e) ∷ es) r =
    serve_all-Rooms (serve env w e) es (serve-Tracks env w e r).rooms

-- A server without sessions is well formed.
pub no_sessions-Rooms : (w : Store) → w.sessions ≡ [] → Rooms w
unfolding lookup
no_sessions-Rooms w e = record {
  used = λ id s f. absurd (cc (f, ap (lookup id) e));
  id = λ id s f. absurd (cc (f, ap (lookup id) e));
  peers = λ id s q p f g. absurd (cc (f, ap (lookup id) e));
}

-- The rooms of a new SFU are well formed.
pub new_sfu-Rooms : (error : Option String) (w w' : Store) → new_sfu error w ≡ some w' → Rooms w'
unfolding new_sfu
new_sfu-Rooms (some e) w w' h = absurd (cc h)
new_sfu-Rooms none w w' h =
    no_sessions-Rooms w' (ap (λ o. elim o [ none ↦ [] | some v ↦ v.sessions ]) (sym h))
