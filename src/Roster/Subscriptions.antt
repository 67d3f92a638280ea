-- ===== src/Roster/Subscriptions.antt =====
-- pkg/sfu/subscriber.go, pkg/sfu/router.go and pkg/sfu/session.go: subscriptions and the announcements of
-- tracks leave the peers and the sessions alone.
use choice.Base.{
  if◌then◌else◌, ◌==◌, nat_eq, string_eq, Option-cases, lookup, insert, include, ℕ, suc, String,
  refl, inl, inr, Option, none, some, List, [], ◌∷◌, arith, NoRepeat-include,
}
use choice.Store.{Store, Env, Router, update}
use choice.Store.Rooms.{
  Quiet, Quiet-trans, Quiet-refl, either-Quiet, set_forwarder-Quiet, keeps_then, grows,
}
use choice.Forwarder.{add_to_forwarder, new_forwarder}
use choice.Messages.{send_notification}
use choice.Subscriber.{subscriber_add_down_track, get_down_track}
use choice.Router.{
  connect, join_one, join_each, router_add_track, connect_known, subscribe_each, router_subscribe,
}
use choice.Peers.{then_negotiate, subscribe}
use choice.Sessions.{session_subscribe, notify_tracks, notify_routers, notify_existing_tracks}
use choice.Roster.Media.{send_notification-Quiet, broadcast-Quiet, subscriber_add_down_track-Quiet}
use choice.Roster.Negotiations.{negotiate_subscriber-Quiet}

connect-Quiet : (w : Store) (f s : ℕ) (id : String) → Quiet w (connect w f s id)
unfolding connect add_to_forwarder
connect-Quiet w f s id = elim (Option-cases (get_down_track w s id)) [
  | inl h ↦ rw (h, connect) (Quiet-refl w)
  | inr (dt, h) ↦
      rw (h, connect)
        (let fwd = w.forwarders f in
          either-Quiet fwd.closed (Quiet-refl w) (
            set_forwarder-Quiet w f (record fwd { down_tracks = include dt fwd.down_tracks })
              (NoRepeat-include dt fwd.down_tracks)))
]

join_one-Quiet :
    (env : Env) (f s : ℕ) (id : String) (w : Store) (r : Option String)
    → Quiet w (join_one env f s id (w, r))
unfolding join_one
join_one-Quiet env f s id w (some e) = Quiet-refl w
join_one-Quiet env f s id w none =
    Quiet-trans (connect-Quiet w f s id) (negotiate_subscriber-Quiet env (connect w f s id) s)

join_each-Quiet :
    (env : Env) (w : Store) (f t : ℕ) (id : String) (subs : List ℕ)
    → Quiet w (join_each env w f t id subs)
unfolding join_each
join_each-Quiet env w f t id [] = Quiet-refl w
join_each-Quiet env w f t id (s ∷ subs) =
    let (w₁, r) = subscriber_add_down_track env w s t in
    Quiet-trans (subscriber_add_down_track-Quiet env w s t) (
      Quiet-trans (join_one-Quiet env f s id w₁ r)
        (join_each-Quiet env (join_one env f s id (w₁, r)) f t id subs))

pub router_add_track-Quiet :
    (env : Env) (w : Store) (r t : ℕ) → Quiet w (router_add_track env w r t)
unfolding router_add_track new_forwarder
router_add_track-Quiet env w r t =
    let router = w.routers r in
    let track = w.tracks t in
    let f = w.next in
    let router' : Router = record router {
      tracks = insert track.track_id t router.tracks;
      forwarders = insert track.track_id f router.forwarders;
    } in
    let w₁ : Store = record w {
      routers = update w.routers r router';
      forwarders = update w.forwarders f (new_forwarder t);
      next = suc f;
    } in
    let set = set_forwarder-Quiet w f (new_forwarder t) (λ h. tt) in
    let added : Quiet w w₁ =
      Quiet-trans set (grows refl refl refl (omega arith) (λ dt l. refl) refl refl) in
    let w₂ = join_each env w₁ f t track.track_id router.subscribers in
    either-Quiet router.closed (Quiet-refl w) (
      Quiet-trans added (
        Quiet-trans (join_each-Quiet env w₁ f t track.track_id router.subscribers)
          (broadcast-Quiet env w₂ router.session router.id "trackAdded" _)))

connect_known-Quiet :
    (w : Store) (f : Option ℕ) (s : ℕ) (id : String) → Quiet w (connect_known w f s id)
unfolding connect_known
connect_known-Quiet w none s id = Quiet-refl w
connect_known-Quiet w (some f) s id = connect-Quiet w f s id

subscribe_each-Quiet :
    (env : Env) (w : Store) (r s : ℕ) (tracks : List (String × ℕ))
    → Quiet w (subscribe_each env w r s tracks).0
unfolding subscribe_each
subscribe_each-Quiet env w r s [] = Quiet-refl w
subscribe_each-Quiet env w r s ((id, t) ∷ tracks) =
    let (w₁, result) = subscriber_add_down_track env w s t in
    let first = subscriber_add_down_track-Quiet env w s t in
    let f = lookup id (w₁.routers r).forwarders in
    let rest = subscribe_each-Quiet env (connect_known w₁ f s id) r s tracks in
    elim (Option-cases result) [
      | inr (e, h) ↦ rw (h, subscribe_each) first
      | inl h ↦
          rw (h, subscribe_each)
            (Quiet-trans first (Quiet-trans (connect_known-Quiet w₁ f s id) rest))
    ]

router_subscribe-Quiet : (env : Env) (w : Store) (r s : ℕ) → Quiet w (router_subscribe env w r s).0
unfolding router_subscribe
router_subscribe-Quiet env w r s =
    let router = w.routers r in
    let w₁ : Store = record w {
      routers = update w.routers r (record router { subscribers = include s router.subscribers });
    } in
    keeps_then (subscribe_each-Quiet env w₁ r s router.tracks) refl refl refl refl refl refl refl

then_negotiate-Quiet :
    (env : Env) (s : ℕ) (w : Store) (r : Option String) → Quiet w (then_negotiate env s (w, r)).0
unfolding then_negotiate
then_negotiate-Quiet env s w (some e) = Quiet-refl w
then_negotiate-Quiet env s w none = negotiate_subscriber-Quiet env w s

subscribe-Quiet : (env : Env) (w : Store) (s r : ℕ) → Quiet w (subscribe env w s r).0
unfolding subscribe
subscribe-Quiet env w s r =
    let sub = w.subscribers s in
    let w₁ : Store = record w {
      subscribers = update w.subscribers s (record sub { routers = include r sub.routers });
    } in
    let (w₂, result) = router_subscribe env w₁ r s in
    keeps_then
      (Quiet-trans (router_subscribe-Quiet env w₁ r s) (then_negotiate-Quiet env s w₂ result)) refl
      refl refl refl refl refl refl

pub session_subscribe-Quiet :
    (env : Env) (w : Store) (s : ℕ) (subscriber publisher : String)
    → Quiet w (session_subscribe env w s subscriber publisher).0
unfolding session_subscribe
session_subscribe-Quiet env w s subscriber publisher =
    elim (Option-cases (lookup subscriber (w.session_table s).peers)) [
      | inl h ↦ rw (h, session_subscribe) (Quiet-refl w)
      | inr (p, h) ↦ elim (Option-cases (lookup publisher (w.session_table s).routers)) [
        | inl g ↦ rw (h, session_subscribe) (rw (g, session_subscribe) (Quiet-refl w))
        | inr (r, g) ↦
            rw (h, session_subscribe)
              (rw (g, session_subscribe) (subscribe-Quiet env w (w.peers p).subscriber r))
      ]
    ]

notify_tracks-Quiet :
    (env : Env) (w : Store) (p : ℕ) (id : String) (tracks : List (String × ℕ))
    → Quiet w (notify_tracks env w p id tracks)
unfolding notify_tracks
notify_tracks-Quiet env w p id [] = Quiet-refl w
notify_tracks-Quiet env w p id ((track_id, t) ∷ tracks) =
    let track = w.tracks t in
    let params =
      ("peerId", id)
      ∷ ("trackId", track_id)
      ∷ ("streamId", track.stream_id)
      ∷ ("kind", track.kind)
      ∷ [] in
    Quiet-trans (send_notification-Quiet env w p "trackAdded" params)
      (notify_tracks-Quiet env (send_notification env w p "trackAdded" params).0 p id tracks)

notify_router-Quiet :
    (env : Env) (w : Store) (p : ℕ) (id : String) (r : ℕ)
    → Quiet w (if id == (w.peers p).id then w else notify_tracks env w p id (w.routers r).tracks)
notify_router-Quiet env w p id r =
    either-Quiet (id == (w.peers p).id) (Quiet-refl w)
      (notify_tracks-Quiet env w p id (w.routers r).tracks)

notify_routers-Quiet :
    (env : Env) (w : Store) (p : ℕ) (routers : List (String × ℕ))
    → Quiet w (notify_routers env w p routers)
unfolding notify_routers
notify_routers-Quiet env w p [] = Quiet-refl w
notify_routers-Quiet env w p ((id, r) ∷ routers) =
    let w₁ = if id == (w.peers p).id then w else notify_tracks env w p id (w.routers r).tracks in
    Quiet-trans (notify_router-Quiet env w p id r) (notify_routers-Quiet env w₁ p routers)

pub notify_existing_tracks-Quiet :
    (env : Env) (w : Store) (s p : ℕ) → Quiet w (notify_existing_tracks env w s p)
unfolding notify_existing_tracks
notify_existing_tracks-Quiet env w s p = notify_routers-Quiet env w p _
