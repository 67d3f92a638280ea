-- ===== src/Examples/Network.antt =====
-- The theorems on forwarders, routers and subscribers, in the room of World.
use mathlib.Core.List.{Permᴰ}
use mathlib.Core.Quot
use choice.Base.{nat_eq, string_eq, lookup, contains, ◌≡◌, refl, true, false, none, some, [], ◌∷◌}
use choice.Layer.{low}
use choice.Rtp.{Packet}
use choice.Forwarder.{close_dt, forward}
use choice.Forwarder.Closing.{shut, closed_stays}
use choice.Messages.{broadcast}
use choice.Messages.Tallies.{Peers, reached, message_on, no_message}
use choice.Messages.Unordered.{Spreads, broadcast_unordered}
use choice.Subscriber.{subscriber_add_down_track, get_down_track}
use choice.Router.{router_add_track}
use choice.Router.Subscribing.{stale_down_track_reused}
use choice.Peers.{close_subscriber}
use choice.Peers.Leaving.{close_subscriber_lem}
use choice.Store.{Store}
use choice.Examples.World.{granting, down_track, bob, world}

abbrev packet : Packet
packet = record {
  sequence_number = 11;
  timestamp = 3_100;
  ssrc = 11;
  payload = 0x11 ∷ [];
  rest = [];
}

closed_stays_example :
    let closed = close_dt world 4 in
    let w' = forward granting closed 3 packet low in
    ((closed.down_tracks 4).closed ≡ true)
    × (contains 4 (closed.forwarders 3).down_tracks ≡ true)
    × (w'.down_tracks 4 ≡ closed.down_tracks 4)
    × (contains 4 (w'.forwarders 3).down_tracks ≡ true)
closed_stays_example =
    closed_stays granting world 3 4 packet low (unfold contains in (refl, (refl, tt)))
      (unfold contains in refl)

-- The map of the room's peers, visited in the other order.
abbrev both : Peers
both = Quot.mk (("bob", 7) ∷ ("ann", 6) ∷ [])

broadcast_unordered_example :
    Spreads world
      (broadcast granting world 8 "ann" "trackAdded" [])
      message_on
      no_message
      (reached world.peers "ann")
      (record { method = "trackAdded"; params = [] })
      both
broadcast_unordered_example =
    broadcast_unordered granting world 8 "ann" "trackAdded" [] both
      (Quot.sound ∣ Permᴰ.swap refl refl ∣₁)

-- Bob has no downtrack yet.
abbrev early : Store
early = record world { subscribers = λ _. record bob { down_tracks = [] } }

stale_down_track_reused_example :
    let w' = router_add_track granting world 5 1 in
    ((subscriber_add_down_track granting world 2 1).0 ≡ world)
    × (get_down_track w' 2 "cam" ≡ some 4)
    × (contains 4 (w'.forwarders 20).down_tracks ≡ true)
unfolding lookup contains
stale_down_track_reused_example = stale_down_track_reused granting world 5 1 2 4 refl refl refl

close_subscriber_lem_example :
    let w' = (close_subscriber granting world 2).0 in
    ((w'.subscribers 2).negotiation.closed ≡ true)
    × ((w'.subscribers 2).routers ≡ [])
    × (contains 2 (w'.routers 5).subscribers ≡ false)
    × (w'.down_tracks 4 ≡ shut down_track)
    × (close_subscriber granting w' 2 ≡ (w', none))
unfolding contains
close_subscriber_lem_example = close_subscriber_lem granting world 2 5 4 refl
