-- ===== src/Subscriber/DownTracks.antt =====
-- pkg/sfu/subscriber.go: what `AddDownTrack` does to a subscriber's downtracks.
use choice.Base.{
  nat_eq, string_eq, beq_self, beq→eq, Bool-cases, Option-cases, lookup, lookup-insert, ℕ, suc,
  String, ◌≡◌, refl, ap, ◌∙◌, ◌≢◌, inl, inr, false, Option, none, some, arith, eq_iff,
}
use choice.Track.{get_best_layer, add_down_track}
use choice.Layer.{Layer}
use choice.Store.{Store, Env, Result, ok, err, update}
use choice.DownTrack.{new_down_track}
use choice.Subscriber.{
  placed, create_down_track, registered, subscriber_add_down_track, get_down_track, set_layer,
}
use choice.Forwarder.{set_target, ask_keyframe}
use choice.Forwarder.Delivery.{ask_keyframe_lem}
use choice.DownTrack.{set_down_track_target}
use choice.Selector.{set_target_layer}

placed_lem :
    (w : Store) (s t : ℕ) (codec : String) (r : Result ℕ)
    → (w' : Store) × (result : Result ℕ) × (placed w s t codec r ≡ (w', result))
      × (w'.subscribers ≡ w.subscribers)
      × (w'.forwarders ≡ w.forwarders)
      × (w'.tracks ≡ w.tracks)
      × (w'.routers ≡ w.routers)
unfolding placed
placed_lem w s t codec (err e) = (_, _, refl, refl, refl, refl, refl)
placed_lem w s t codec (ok ssrc) = (_, _, refl, refl, refl, refl, refl)

create_down_track_lem :
    (env : Env) (w : Store) (s t : ℕ) (codec : String)
    → (w' : Store) × (result : Result ℕ) × (create_down_track env w s t codec ≡ (w', result))
      × (w'.subscribers ≡ w.subscribers)
      × (w'.forwarders ≡ w.forwarders)
      × (w'.tracks ≡ w.tracks)
      × (w'.routers ≡ w.routers)
unfolding create_down_track
create_down_track_lem env w s t codec =
    elim (Option-cases (env.new_local_track s (w.tracks t).track_id)) [
      | inl h ↦
          rw (h, create_down_track)
            (placed_lem w s t codec (env.add_track (w.subscribers s).pc (w.tracks t).track_id))
      | inr (e, h) ↦ rw (h, create_down_track) (w, err e, refl, refl, refl, refl, refl)
    ]

-- What `AddDownTrack` leaves as it is.
pub record Added (w w' : Store) (s t : ℕ) (result : Option String) : Type 0 where
  pub others : (k : ℕ) → s ≢ k → (w'.subscribers k).down_tracks ≡ (w.subscribers k).down_tracks
  pub forwarders : w'.forwarders ≡ w.forwarders
  pub routers : w'.routers ≡ w.routers
  pub track_id : (j : ℕ) → (w'.tracks j).track_id ≡ (w.tracks j).track_id
  pub mapped :
      (dt : ℕ) → lookup (w.tracks t).track_id (w.subscribers s).down_tracks ≡ some dt → w' ≡ w
  pub other_ids :
      (id : String)
      → (w.tracks t).track_id ≢ id
      → lookup id (w'.subscribers s).down_tracks ≡ lookup id (w.subscribers s).down_tracks
  pub failed :
      (e : String)
      → result ≡ some e
      → lookup (w.tracks t).track_id (w'.subscribers s).down_tracks ≡ none

Added-none : (w : Store) (s t : ℕ) → Added w w s t none
Added-none w s t = record {
  others = λ k n. refl;
  forwarders = refl;
  routers = refl;
  track_id = λ j. refl;
  mapped = λ dt h. refl;
  other_ids = λ id n. refl;
  failed = λ e h. absurd (cc h);
}

registered_lem :
    (w w' : Store) (s t : ℕ) (result : Result ℕ)
    → lookup (w.tracks t).track_id (w.subscribers s).down_tracks ≡ none
    → (w'.subscribers ≡ w.subscribers)
    → (w'.forwarders ≡ w.forwarders)
    → (w'.tracks ≡ w.tracks)
    → (w'.routers ≡ w.routers)
    → let (v, r) = registered s t (w', result) in Added w v s t r
unfolding registered add_down_track
registered_lem w w' s t (err e) new a b c d = record {
  others = λ k n. ap (λ f. (f k).down_tracks) a;
  forwarders = b;
  routers = d;
  track_id = λ j. ap (λ f. (f j).track_id) c;
  mapped = λ dt h. absurd (cc (h, new));
  other_ids = λ id n. ap (λ f. lookup id (f s).down_tracks) a;
  failed = λ e h. ap (λ f. lookup (w.tracks t).track_id (f s).down_tracks) a ∙ new;
}
registered_lem w w' s t (ok dt) new a b c d =
    let old : (k : ℕ) → (w'.subscribers k).down_tracks ≡ (w.subscribers k).down_tracks =
      λ k. ap (λ f. (f k).down_tracks) a in
    let ids : (j : ℕ) → (w'.tracks j).track_id ≡ (w.tracks j).track_id =
      λ j. ap (λ f. (f j).track_id) c in
    record {
      others = λ k n. ground (arith, old k, n);
      forwarders = b;
      routers = d;
      track_id = λ j.
          ground (arith, ids j, ids t, beq→eq t j, ap (λ i. (w.tracks i).track_id) {x = t} {y = j});
      mapped = λ dt h. absurd (cc (h, new));
      other_ids = λ id n.
          let key = (w'.tracks t).track_id in
          let at = lookup-insert key id dt (w'.subscribers s).down_tracks in
          ground (arith, beq_self s, at, ids t, n, eq_iff key id, ap (lookup id) (old s));
      failed = λ e h. absurd (cc h);
    }

pub subscriber_add_down_track_lem :
    (env : Env) (w : Store) (s t : ℕ)
    → let (w', result) = subscriber_add_down_track env w s t in Added w w' s t result
unfolding subscriber_add_down_track
subscriber_add_down_track_lem env w s t =
    let sub = w.subscribers s in
    let track = w.tracks t in
    elim (Bool-cases sub.negotiation.closed) [
      | inl c ↦ rw c (Added-none w s t)
      | inr o ↦ rw o elim (Option-cases (lookup track.track_id sub.down_tracks)) [
        | inr (dt, h) ↦ rw h (Added-none w s t)
        | inl new ↦ rw new elim (Option-cases (get_best_layer track)) [
          | inl h ↦ rw h (Added-none w s t)
          | inr (layer, h) ↦
              let (w', r, e, a, b, c, d) =
                create_down_track_lem env w s t (w.receivers layer.receiver).codec in
              rw (h, e) (registered_lem w w' s t r new a b c d)
        ]
      ]
    ]

create_down_track_run :
    (env : Env) (w : Store) (s t ssrc : ℕ) (codec : String)
    → env.new_local_track s (w.tracks t).track_id ≡ none
    → env.add_track (w.subscribers s).pc (w.tracks t).track_id ≡ ok ssrc
    → create_down_track env w s t codec ≡ placed w s t codec (ok ssrc)
unfolding create_down_track
create_down_track_run env w s t ssrc codec l a = rw (create_down_track, l, a) refl

add_down_track_run :
    (env : Env) (w : Store) (s t : ℕ) (layer : Layer) (made : Store × Option String)
    → (w.subscribers s).negotiation.closed ≡ false
    → lookup (w.tracks t).track_id (w.subscribers s).down_tracks ≡ none
    → get_best_layer (w.tracks t) ≡ some layer
    → registered s t (create_down_track env w s t (w.receivers layer.receiver).codec) ≡ made
    → subscriber_add_down_track env w s t ≡ made
unfolding subscriber_add_down_track
add_down_track_run env w s t layer made o new best e = rw (o, new, best) e

set_layer_lem :
    (w : Store) (s dt : ℕ) (id name : String)
    → lookup id (w.subscribers s).down_tracks ≡ some dt
    → ((set_layer w s id name).down_tracks dt).selector.target_layer ≡ name
unfolding set_layer set_target set_down_track_target set_target_layer
set_layer_lem w s dt id name found =
    let d = w.down_tracks dt in
    let (d', asked) = set_down_track_target d (w.tracks d.track_receiver) name in
    let w' : Store = record w { down_tracks = update w.down_tracks dt d' } in
    let here : (ask_keyframe w' asked).down_tracks dt ≡ w'.down_tracks dt =
      ap (λ f. f dt) (ask_keyframe_lem w' asked).down_tracks in
    rw (found, set_layer)
      (ground (
        arith,
        here,
        beq_self dt,
        eq_iff d.selector.target_layer name,
        eq_iff name d.selector.target_layer,
      ))

-- A track that is new to an open subscriber and has a layer, when the libraries give a local track and a
-- sender: `AddDownTrack` maps its id to a new, open downtrack for this subscriber and this track; and
-- `SetLayer` with that id then sets the target layer of that downtrack.
pub add_down_track_new :
    (env : Env) (w : Store) (s t : ℕ) (layer : Layer) (ssrc : ℕ) (name : String)
    → (w.subscribers s).negotiation.closed ≡ false
    → lookup (w.tracks t).track_id (w.subscribers s).down_tracks ≡ none
    → get_best_layer (w.tracks t) ≡ some layer
    → env.new_local_track s (w.tracks t).track_id ≡ none
    → env.add_track (w.subscribers s).pc (w.tracks t).track_id ≡ ok ssrc
    → let (w', result) = subscriber_add_down_track env w s t in
      let id = (w.tracks t).track_id in
      let dt = w'.down_tracks w.next in
      (result ≡ none)
      × (get_down_track w' s id ≡ some w.next)
      × (dt.track_receiver ≡ t)
      × (dt.subscriber ≡ s)
      × (dt.closed ≡ false)
      × (w'.next ≡ suc w.next)
      × (((set_layer w' s id name).down_tracks w.next).selector.target_layer ≡ name)
unfolding registered placed get_down_track new_down_track add_down_track
add_down_track_new env w s t layer ssrc name o new best l a =
    let sub = w.subscribers s in
    let id = (w.tracks t).track_id in
    let codec = (w.receivers layer.receiver).codec in
    let made = registered s t (placed w s t codec (ok ssrc)) in
    let run : subscriber_add_down_track env w s t ≡ made =
      add_down_track_run env w s t layer made o new best
        (ap (registered s t) (create_down_track_run env w s t ssrc codec l a)) in
    let found : lookup id (made.0.subscribers s).down_tracks ≡ some w.next =
      ground (arith, beq_self s, beq_self id, lookup-insert id id w.next sub.down_tracks) in
    rw (run) (
      refl,
      found,
      ground (arith, beq_self w.next),
      ground (arith, beq_self w.next),
      ground (arith, beq_self w.next),
      refl,
      set_layer_lem made.0 s w.next id name found,
    )
