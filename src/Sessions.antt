-- ===== src/Sessions.antt =====
-- pkg/sfu/session.go: `Session`; and pkg/sfu/sfu.go: the sessions of the SFU. The broadcasts stand in Messages,
-- `AddRouter` in Publisher.
pub mod Membership
use choice.Base.{
  if◌then◌else◌, ◌==◌, nat_eq, string_eq, lookup, insert, delete, ℕ, suc, String, not, Option, none,
  some, List, [], ◌∷◌,
}
use choice.Track.{TrackReceiver}
use choice.Store.{Store, Env, Result, ok, err, Session, update}
use choice.Messages.{send_notification}
use choice.Router.{get_tracks, close_router}
use choice.Peers.{new_peer, peer_subscribe, close_peer}

unfoldable pub new_session : String → Session
new_session id = record { id = id; peers = []; routers = [] }

unfoldable pub added_peer : ℕ → String → Store × Result ℕ → Store × Result ℕ
added_peer s peer_id (w, err e) = (w, err e)
added_peer s peer_id (w, ok p) =
    let session = w.session_table s in
    (
      record w {
        session_table =
            update w.session_table s (record session { peers = insert peer_id p session.peers });
      },
      ok p,
    )

-- `AddPeer`
unfoldable pub add_peer : Env → Store → ℕ → String → ℕ → Store × Result ℕ
unfolding added_peer
add_peer env w s peer_id conn = added_peer s peer_id (new_peer env w peer_id s conn)

abbrev pub session_not_found : String
session_not_found = "session not found"

abbrev pub peer_not_found : String
peer_not_found = "peer not found"

unfoldable pub found : String → Option ℕ → Result ℕ
found error none = err error
found error (some a) = ok a

unfoldable pub get_peer : Store → ℕ → String → Result ℕ
unfolding found
get_peer w s peer_id = found peer_not_found (lookup peer_id (w.session_table s).peers)

unfoldable pub get_router : Store → ℕ → String → Option ℕ
get_router w s peer_id = lookup peer_id (w.session_table s).routers

unfoldable pub close_known_peer : Env → Store → ℕ → String → Option ℕ → Store
close_known_peer env w s peer_id none = w
close_known_peer env w s peer_id (some p) =
    let w₁ = close_peer env w p in
    let session = w₁.session_table s in
    record w₁ {
      session_table =
          update w₁.session_table s (record session { peers = delete peer_id session.peers });
    }

unfoldable pub close_known_router : Store → ℕ → String → Option ℕ → Store
close_known_router w s peer_id none = w
close_known_router w s peer_id (some r) =
    let w₁ = close_router w r in
    let session = w₁.session_table s in
    record w₁ {
      session_table =
          update w₁.session_table s (record session { routers = delete peer_id session.routers });
    }

-- `RemovePeer`
unfoldable pub remove_peer : Env → Store → ℕ → String → Store
unfolding close_known_peer close_known_router
remove_peer env w s peer_id =
    let w₁ = close_known_peer env w s peer_id (lookup peer_id (w.session_table s).peers) in
    close_known_router w₁ s peer_id (lookup peer_id (w₁.session_table s).routers)

-- `Session.Subscribe`
unfoldable pub session_subscribe : Env → Store → ℕ → String → String → Store × Option String
session_subscribe env w s subscriber_id publisher_id =
    let session = w.session_table s in
    elim (lookup subscriber_id session.peers) [
      | none ↦ (w, some peer_not_found)
      | some p ↦ elim (lookup publisher_id session.routers) [
        | none ↦ (w, some peer_not_found)
        | some r ↦ peer_subscribe env w p r
      ]
    ]

-- The inner loop of `NotifyExistingTracks`.
unfoldable pub notify_tracks : Env → Store → ℕ → String → List (String × ℕ) → Store
notify_tracks env w p peer_id [] = w
notify_tracks env w p peer_id ((track_id, t) ∷ tracks) =
    let track = w.tracks t in
    let params =
      ("peerId", peer_id)
      ∷ ("trackId", track_id)
      ∷ ("streamId", track.stream_id)
      ∷ ("kind", track.kind)
      ∷ [] in
    notify_tracks env (send_notification env w p "trackAdded" params).0 p peer_id tracks

-- The outer loop.
unfoldable pub notify_routers : Env → Store → ℕ → List (String × ℕ) → Store
notify_routers env w p [] = w
notify_routers env w p ((peer_id, r) ∷ routers) =
    let w' =
      if peer_id == (w.peers p).id then w else notify_tracks env w p peer_id (get_tracks w r) in
    notify_routers env w' p routers

-- `NotifyExistingTracks`
unfoldable pub notify_existing_tracks : Env → Store → ℕ → ℕ → Store
notify_existing_tracks env w s p = notify_routers env w p (w.session_table s).routers

unfoldable pub close_peers : Env → Store → List (String × ℕ) → Store
close_peers env w [] = w
close_peers env w ((id, p) ∷ peers) = close_peers env (close_peer env w p) peers

unfoldable pub close_routers : Store → List (String × ℕ) → Store
close_routers w [] = w
close_routers w ((id, r) ∷ routers) = close_routers (close_router w r) routers

-- `Session.Close`
unfoldable pub close_session : Env → Store → ℕ → Store
close_session env w s =
    let w₁ = close_peers env w (w.session_table s).peers in
    let w₂ = close_routers w₁ (w₁.session_table s).routers in
    let session = w₂.session_table s in
    record w₂ {
      session_table = update w₂.session_table s (record session { peers = []; routers = [] });
    }

-- `GetOrCreateSession`
unfoldable pub get_or_create_session : Store → String → Store × ℕ
unfolding new_session
get_or_create_session w id = elim (lookup id w.sessions) [
  | some s ↦ (w, s)
  | none ↦
      let s = w.next in
      (
        record w {
          session_table = update w.session_table s (new_session id);
          sessions = insert id s w.sessions;
          next = suc s;
        },
        s,
      )
]

unfoldable pub get_session : Store → String → Result ℕ
unfolding found
get_session w id = found session_not_found (lookup id w.sessions)

-- `DeleteSession`
unfoldable pub delete_session : Env → Store → String → Store
delete_session env w id = elim (lookup id w.sessions) [
  | none ↦ w
  | some s ↦ let w' = close_session env w s in record w' { sessions = delete id w'.sessions }
]
