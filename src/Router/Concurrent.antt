-- ===== src/Router/Concurrent.antt =====
-- pkg/sfu/router.go: `AddTrack` and `Subscribe` on one router, called by two goroutines that run in any order.
-- `Subscribe` holds the router's mutex to its end; `AddTrack` holds it while it registers the track, and then
-- goes over the subscribers without it. Each call of a method of another object is one step.
pub mod Steps
pub mod Covered
pub mod Advancing
pub mod Meeting
pub mod Ending
use choice.Base.{
  if◌then◌else◌, nat_eq, string_eq, lookup, insert, include, ℕ, suc, String, Bool, true, false,
  Option, none, some, List, [], ◌∷◌,
}
use choice.Track.{TrackReceiver}
use choice.Store.{Store, Env, Router, update}
use choice.Forwarder.{new_forwarder}
use choice.Subscriber.{subscriber_add_down_track, negotiate_subscriber}
use choice.Messages.{broadcast}
use choice.Router.{connect, connect_known}

-- Where `AddTrack` stands, with the forwarder that it has made.
pub data Adding : Type 0 where
  adding : Adding  -- before it registers the track
  joining : ℕ → List ℕ → Adding  -- in the loop, with the subscribers left
  wiring : ℕ → ℕ → List ℕ → Adding  -- with a subscriber that has added its downtrack
  offering : ℕ → ℕ → List ℕ → Adding  -- before it negotiates with a subscriber
  added : ℕ → Adding
  refused : Adding  -- the router is closed

-- Where `Subscribe` stands; from `entering` to `subscribed` it has the mutex.
pub data Subscribing : Type 0 where
  subscribing : Subscribing
  entering : List (String × ℕ) → Subscribing  -- in the loop, with the tracks left
  attaching : String → List (String × ℕ) → Subscribing  -- with a track of which the downtrack is added
  subscribed : Option String → Subscribing

pub record Calls : Type 0 where
  pub store : Store
  pub adder : Adding
  pub subscriber : Subscribing

abbrev pub is_held : Subscribing → Bool
is_held subscribing = false
is_held (entering tracks) = true
is_held (attaching id tracks) = true
is_held (subscribed result) = false

-- What `AddTrack` does to the store in its critical section, on an open router.
unfoldable pub register : Store → ℕ → ℕ → Store
unfolding new_forwarder
register w r t =
    let router = w.routers r in
    let id = (w.tracks t).track_id in
    let f = w.next in
    let router' : Router = record router {
      tracks = insert id t router.tracks;
      forwarders = insert id f router.forwarders;
    } in
    record w {
      routers = update w.routers r router';
      forwarders = update w.forwarders f (new_forwarder t);
      next = suc f;
    }

-- One step of `AddTrack`.
unfoldable pub add_step : Env → ℕ → ℕ → Store → Bool → Adding → Store × Adding
unfolding register
add_step env r t w held adding =
    if held
    then (w, adding)
    else if (w.routers r).closed
    then (w, refused)
    else (register w r t, joining w.next (w.routers r).subscribers)
add_step env r t w held (joining f []) =
    let router = w.routers r in
    let track = w.tracks t in
    (
      broadcast env w router.session router.id "trackAdded" (
          ("peerId", router.id)
          ∷ ("trackId", track.track_id)
          ∷ ("streamId", track.stream_id)
          ∷ ("kind", track.kind)
          ∷ []),
      added f,
    )
add_step env r t w held (joining f (s ∷ subs)) =
    let (w', result) = subscriber_add_down_track env w s t in
    (w', elim result [ some e ↦ joining f subs | none ↦ wiring f s subs ])
add_step env r t w held (wiring f s subs) = (connect w f s (w.tracks t).track_id, offering f s subs)
add_step env r t w held (offering f s subs) = ((negotiate_subscriber env w s).0, joining f subs)
add_step env r t w held (added f) = (w, added f)
add_step env r t w held refused = (w, refused)

-- One step of `Subscribe`.
unfoldable pub subscribe_step : Env → ℕ → ℕ → Store → Subscribing → Store × Subscribing
subscribe_step env r s w subscribing =
    let router = w.routers r in
    (
      record w {
        routers = update w.routers r (record router { subscribers = include s router.subscribers });
      },
      entering router.tracks,
    )
subscribe_step env r s w (entering []) = (w, subscribed none)
subscribe_step env r s w (entering ((id, t) ∷ tracks)) =
    let (w', result) = subscriber_add_down_track env w s t in
    (w', elim result [ some e ↦ subscribed (some e) | none ↦ attaching id tracks ])
subscribe_step env r s w (attaching id tracks) =
    (connect_known w (lookup id (w.routers r).forwarders) s id, entering tracks)
subscribe_step env r s w (subscribed result) = (w, subscribed result)

-- The goroutine that goes on.
pub data Turn : Type 0 where
  add : Turn
  subscribe : Turn

unfoldable pub take_turn : Env → ℕ → ℕ → ℕ → Calls → Turn → Calls
unfolding add_step subscribe_step
take_turn env r t s c add =
    let (w, adder) = add_step env r t c.store (is_held c.subscriber) c.adder in
    record c { store = w; adder = adder }
take_turn env r t s c subscribe =
    let (w, subscriber) = subscribe_step env r s c.store c.subscriber in
    record c { store = w; subscriber = subscriber }

unfoldable pub take_turns : ℕ → ℕ → ℕ → Calls → List (Env × Turn) → Calls
unfolding take_turn
take_turns r t s c [] = c
take_turns r t s c ((env, turn) ∷ turns) = take_turns r t s (take_turn env r t s c turn) turns
