-- ===== src/Router/Subscribing.antt =====
-- pkg/sfu/router.go: the subscribers of a router and the tracks that are added to it.
use choice.Base.{
  if◌then◌else◌, nat_eq, string_eq, beq_self, lookup, insert, contains, ℕ, suc, String, ◌≡◌, refl,
  sym, ◌∙◌, subst, Bool, true, false, some, List, arith,
}
use choice.Store.{Store, Env, Effect, update}
use choice.Forwarder.{new_forwarder}
use choice.Subscriber.{subscriber_add_down_track, get_down_track}
use choice.Subscriber.DownTracks.{subscriber_add_down_track_lem}
use choice.Messages.Broadcast.{broadcast_reaches, logged}
use choice.Router.{join_each, router_add_track}
use choice.Router.Joining.{Joined, IsConnected, join_each_lem}

-- The store in which the loop of `AddTrack` starts.
abbrev before_join : Store → ℕ → ℕ → Store
before_join w r t =
    let router = w.routers r in
    let track = w.tracks t in
    record w {
      routers = update w.routers r (record router {
        tracks = insert track.track_id t router.tracks;
        forwarders = insert track.track_id w.next router.forwarders;
      });
      forwarders = update w.forwarders w.next (new_forwarder t);
      next = suc w.next;
    }

if_false : {A : Type 0} (b : Bool) (x y : A) → b ≡ false → (if b then x else y) ≡ y
if_false b x y h = rw h refl

router_add_track_run :
    (env : Env) (w : Store) (r t : ℕ)
    → (w.routers r).closed ≡ false
    → let v =
        join_each env
          (before_join w r t)
          w.next
          t
          (w.tracks t).track_id
          (w.routers r).subscribers in
      (effects : List Effect) × (router_add_track env w r t ≡ logged v effects)
unfolding router_add_track
router_add_track_run env w r t o =
    let v =
      join_each env (before_join w r t) w.next t (w.tracks t).track_id (w.routers r).subscribers in
    (
      _,
      if_false (w.routers r).closed w _ o
          ∙ broadcast_reaches env v (w.routers r).session (w.routers r).id "trackAdded" _,
    )

Joined-logged :
    (w v : Store) (f t : ℕ) (id : String) (s : ℕ) (effects : List Effect)
    → Joined w v f t id × IsConnected v f id s
    → Joined w (logged v effects) f t id × IsConnected (logged v effects) f id s
unfolding IsConnected
Joined-logged w v f t id s effects (j, own) = (
  record {
    open_forwarder = j.open_forwarder;
    source = j.source;
    track_id = j.track_id;
    routers = j.routers;
    members = j.members;
    mapped = j.mapped;
    connected = j.connected;
  },
  own,
)

router_add_track_lem :
    (env : Env) (w : Store) (r t s : ℕ)
    → (w.routers r).closed ≡ false
    → contains s (w.routers r).subscribers ≡ true
    → let w' = router_add_track env w r t in
      Joined (before_join w r t) w' w.next t (w.tracks t).track_id
      × IsConnected w' w.next (w.tracks t).track_id s
unfolding new_forwarder
router_add_track_lem env w r t s o m =
    let id = (w.tracks t).track_id in
    let subs = (w.routers r).subscribers in
    let b = before_join w r t in
    let (effects, e) = router_add_track_run env w r t o in
    let (j, own) = join_each_lem env b w.next t id subs (ground (arith, beq_self w.next)) refl in
    let v = join_each env b w.next t id subs in
    subst (λ x. Joined b x w.next t id × IsConnected x w.next id s) (sym e)
      (Joined-logged b v w.next t id s effects (j, own s m))

-- A subscriber that still maps the track's id to a downtrack of an earlier track (of a publisher that has
-- left and come back, say; nothing removes the entry) gets no downtrack for the new one: `AddDownTrack`
-- changes nothing and returns no error, and `AddTrack` puts the downtrack of the earlier track into the
-- new track's forwarder.
pub stale_down_track_reused :
    (env : Env) (w : Store) (r t s dt : ℕ)
    → (w.routers r).closed ≡ false
    → contains s (w.routers r).subscribers ≡ true
    → lookup (w.tracks t).track_id (w.subscribers s).down_tracks ≡ some dt
    → let w' = router_add_track env w r t in
      ((subscriber_add_down_track env w s t).0 ≡ w)
      × (get_down_track w' s (w.tracks t).track_id ≡ some dt)
      × (contains dt (w'.forwarders w.next).down_tracks ≡ true)
unfolding get_down_track IsConnected
stale_down_track_reused env w r t s dt o m h =
    let (j, own) = router_add_track_lem env w r t s o m in
    let kept = j.mapped s dt h in
    ((subscriber_add_down_track_lem env w s t).mapped dt h, kept, own dt kept)
