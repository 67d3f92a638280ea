-- ===== src/Router.antt =====
-- pkg/sfu/router.go: `Router`, from the tracks of one publisher to their subscribers.
pub mod Joining
pub mod Completing
pub mod Subscribing
pub mod Concurrent
use choice.Base.{
  if◌then◌else◌, nat_eq, string_eq, lookup, insert, include, exclude, ℕ, suc, String, true, false,
  Option, none, some, List, [], ◌∷◌,
}
use choice.Rtp.{Packet}
use choice.Track.{TrackReceiver}
use choice.Store.{Store, Env, Router, Forwarder, update}
use choice.Forwarder.{new_forwarder, add_to_forwarder, forward, close_track, close_forwarder}
use choice.Subscriber.{subscriber_add_down_track, get_down_track, negotiate_subscriber}
use choice.Messages.{broadcast}

unfoldable pub new_router : String → ℕ → Router
new_router id session = record {
  id = id;
  session = session;
  tracks = [];
  forwarders = [];
  subscribers = [];
  closed = false;
}

-- `if dt := sub.GetDownTrack(trackID); dt != nil { forwarder.AddDownTrack(dt) }`
unfoldable pub connect : Store → ℕ → ℕ → String → Store
connect w f s track_id = elim (get_down_track w s track_id) [
  | none ↦ w
  | some dt ↦ add_to_forwarder w f dt
]

unfoldable pub join_one : Env → ℕ → ℕ → String → Store × Option String → Store
unfolding connect
join_one env f s track_id (w, some e) = w
join_one env f s track_id (w, none) = (negotiate_subscriber env (connect w f s track_id) s).0

-- The loop of `AddTrack` over the subscribers.
unfoldable pub join_each : Env → Store → ℕ → ℕ → String → List ℕ → Store
unfolding join_one
join_each env w f t track_id [] = w
join_each env w f t track_id (s ∷ subs) =
    join_each env (join_one env f s track_id (subscriber_add_down_track env w s t)) f t track_id
      subs

-- `AddTrack`
unfoldable pub router_add_track : Env → Store → ℕ → ℕ → Store
unfolding new_forwarder
router_add_track env w r t =
    let router = w.routers r in
    let track = w.tracks t in
    let f = w.next in
    if router.closed
    then w
    else let router' : Router = record router {
      tracks = insert track.track_id t router.tracks;
      forwarders = insert track.track_id f router.forwarders;
    } in
      let w₁ : Store = record w {
        routers = update w.routers r router';
        forwarders = update w.forwarders f (new_forwarder t);
        next = suc f;
      } in
      let w₂ = join_each env w₁ f t track.track_id router.subscribers in
      broadcast env w₂ router.session router.id "trackAdded" (
        ("peerId", router.id)
        ∷ ("trackId", track.track_id)
        ∷ ("streamId", track.stream_id)
        ∷ ("kind", track.kind)
        ∷ [])

unfoldable pub get_track : Store → ℕ → String → Option ℕ
get_track w r track_id = lookup track_id (w.routers r).tracks

-- `GetTracks`: a copy of the map.
abbrev pub get_tracks : Store → ℕ → List (String × ℕ)
get_tracks w r = (w.routers r).tracks

-- `Router.Forward`
unfoldable pub router_forward : Env → Store → ℕ → String → Packet → String → Store
router_forward env w r track_id packet layer_name =
    elim (lookup track_id (w.routers r).forwarders) [
      | none ↦ w
      | some f ↦ forward env w f packet layer_name
    ]

unfoldable pub connect_known : Store → Option ℕ → ℕ → String → Store
connect_known w none s track_id = w
connect_known w (some f) s track_id = connect w f s track_id

-- The loop of `Subscribe` over the tracks; an error ends it.
unfoldable pub subscribe_each : Env → Store → ℕ → ℕ → List (String × ℕ) → Store × Option String
unfolding connect_known
subscribe_each env w r s [] = (w, none)
subscribe_each env w r s ((track_id, t) ∷ tracks) =
    let (w₁, result) = subscriber_add_down_track env w s t in
    let w₂ = connect_known w₁ (lookup track_id (w₁.routers r).forwarders) s track_id in
    let rest = subscribe_each env w₂ r s tracks in
    elim result [ some e ↦ (w₁, some e) | none ↦ rest ]

-- `Router.Subscribe`
unfoldable pub router_subscribe : Env → Store → ℕ → ℕ → Store × Option String
router_subscribe env w r s =
    let router = w.routers r in
    let w₁ : Store = record w {
      routers = update w.routers r (record router { subscribers = include s router.subscribers });
    } in
    subscribe_each env w₁ r s router.tracks

-- `Router.Unsubscribe`
unfoldable pub unsubscribe : Store → ℕ → ℕ → Store
unsubscribe w r s =
    let router = w.routers r in
    record w {
      routers = update w.routers r (record router { subscribers = exclude s router.subscribers });
    }

unfoldable pub close_tracks : Store → List (String × ℕ) → Store
close_tracks w [] = w
close_tracks w ((id, t) ∷ tracks) = close_tracks (close_track w t) tracks

unfoldable pub close_forwarders : Store → List (String × ℕ) → Store
close_forwarders w [] = w
close_forwarders w ((id, f) ∷ fwds) = close_forwarders (close_forwarder w f) fwds

-- `Router.Close`
unfoldable pub close_router : Store → ℕ → Store
unfolding close_forwarders
close_router w r =
    let router = w.routers r in
    if router.closed
    then w
    else let w₁ : Store = record w {
      routers = update w.routers r (record router { closed = true });
    } in
      close_forwarders (close_tracks w₁ router.tracks) router.forwarders
