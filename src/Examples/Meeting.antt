-- ===== src/Examples/Meeting.antt =====
-- `AddTrack` and `Subscribe` on the router of World, interleaved.
use choice.Base.{
  nat_eq, string_eq, lookup, insert, contains, include, ◌≡◌, refl, true, none, some, List, [], ◌∷◌,
}
use choice.Forwarder.{add_to_forwarder}
use choice.Messages.{broadcast, notify_each, send_offer, send_notification}
use choice.Subscriber.{
  negotiate_subscriber, get_down_track, subscriber_add_down_track, create_down_track,
}
use choice.Store.{Store, Env}
use choice.Track.{get_best_layer}
use choice.Router.{connect, connect_known}
use choice.Router.Concurrent.{added, subscribed, Turn, add, subscribe, take_turn, take_turns}
use choice.Router.Concurrent.Meeting.{begin, calls_connect}
use choice.Examples.World.{granting, bob, world}

-- Bob has no downtrack yet, and the router no subscriber.
abbrev empty : Store
empty = record world {
  subscribers = λ _. record bob { down_tracks = [] };
  routers = λ _. record (world.routers 5) { subscribers = [] };
}

-- `AddTrack` waits for the mutex while `Subscribe` goes over the tracks.
abbrev order : List (Env × Turn)
order =
    (granting, subscribe)
    ∷ (granting, add)
    ∷ (granting, subscribe)
    ∷ (granting, subscribe)
    ∷ (granting, subscribe)
    ∷ (granting, add)
    ∷ (granting, add)
    ∷ (granting, add)
    ∷ (granting, add)
    ∷ (granting, add)
    ∷ []

order-adder : (take_turns 5 1 2 (begin empty) order).adder ≡ added 21
unfolding take_turns take_turn subscriber_add_down_track lookup get_best_layer create_down_track
    connect_known connect get_down_track insert add_to_forwarder include contains
order-adder = refl

order-subscriber : (take_turns 5 1 2 (begin empty) order).subscriber ≡ subscribed none
unfolding take_turns take_turn subscriber_add_down_track lookup get_best_layer create_down_track
order-subscriber = refl

order-down_track : get_down_track (take_turns 5 1 2 (begin empty) order).store 2 "cam" ≡ some 20
unfolding take_turns take_turn subscriber_add_down_track lookup get_best_layer create_down_track
    connect_known connect get_down_track insert add_to_forwarder include contains broadcast
    notify_each negotiate_subscriber send_offer send_notification
order-down_track = refl

calls_connect_example :
    let w' = (take_turns 5 1 2 (begin empty) order).store in
    (lookup "cam" (w'.routers 5).forwarders ≡ some 21)
    × (contains 20 (w'.forwarders 21).down_tracks ≡ true)
calls_connect_example =
    calls_connect 5 1 2 empty order 21 20 (refl, tt) order-adder order-subscriber order-down_track
