-- ===== src/Router/Completing.antt =====
-- pkg/sfu/router.go: `Subscribe` over the tracks of a router.
use choice.Base.{
  nat_eq, string_eq, beq→eq, Bool-cases, Option-cases, All, lookup, contains, contains-include, ℕ,
  String, ◌≡◌, refl, ap, ◌∙◌, ◌≢◌, inl, inr, true, false, Option, none, some, List, [], ◌∷◌, arith,
}
use choice.Store.{Store}
use choice.Forwarder.{add_to_forwarder}
use choice.Subscriber.{get_down_track}
use choice.Router.{connect, connect_known}
use choice.Router.Joining.{IsConnected}

-- What a round of the loop keeps, as far as one forwarder can see.
pub record Kept (w w' : Store) (f : ℕ) : Type 0 where
  pub open_forwarder : (w'.forwarders f).closed ≡ false
  pub subscribers : w'.subscribers ≡ w.subscribers
  pub tracks : w'.tracks ≡ w.tracks
  pub routers : w'.routers ≡ w.routers
  pub members :
      (j : ℕ)
      → contains j (w.forwarders f).down_tracks ≡ true
      → contains j (w'.forwarders f).down_tracks ≡ true

add_to_forwarder-Kept :
    (w : Store) (f g dt : ℕ) → (w.forwarders f).closed ≡ false → Kept w (add_to_forwarder w g dt) f
unfolding add_to_forwarder
add_to_forwarder-Kept w f g dt o = elim (Bool-cases (w.forwarders g).closed) [
  | inl c ↦ rw c (record {
    open_forwarder = o;
    subscribers = refl;
    tracks = refl;
    routers = refl;
    members = λ j m. m;
  })
  | inr c ↦
      let same = ap (λ k. w.forwarders k) {x = g} {y = f} in
      let set = (w.forwarders g).down_tracks in
      rw c (record {
        open_forwarder = ground (arith, o, beq→eq g f);
        subscribers = refl;
        tracks = refl;
        routers = refl;
        members = λ j m. ground (arith, m, same, beq→eq g f, contains-include dt j set);
      })
]

pub connect_known-Kept :
    (w : Store) (f s : ℕ) (g : Option ℕ) (id : String)
    → (w.forwarders f).closed ≡ false
    → Kept w (connect_known w g s id) f
unfolding connect_known connect get_down_track
connect_known-Kept w f s none id o = record {
  open_forwarder = o;
  subscribers = refl;
  tracks = refl;
  routers = refl;
  members = λ j m. m;
}
connect_known-Kept w f s (some g) id o =
    elim (Option-cases (lookup id (w.subscribers s).down_tracks)) [
      | inl h ↦
          rw (h, connect)
            (record {
              open_forwarder = o;
              subscribers = refl;
              tracks = refl;
              routers = refl;
              members = λ j m. m;
            })
      | inr (dt, h) ↦ rw (h, connect) (add_to_forwarder-Kept w f g dt o)
    ]

-- A router keeps a track under its id.
abbrev pub IsKeyed : Store → List (String × ℕ) → Type 0
IsKeyed w tracks = All (λ e. (w.tracks e.1).track_id ≡ e.0) tracks

pub IsKeyed-kept :
    (w u : Store) (tracks : List (String × ℕ))
    → ((j : ℕ) → (u.tracks j).track_id ≡ (w.tracks j).track_id)
    → IsKeyed w tracks
    → IsKeyed u tracks
IsKeyed-kept w u [] h k = tt
IsKeyed-kept w u ((id, t) ∷ tracks) h (k, ks) = (h t ∙ k, IsKeyed-kept w u tracks h ks)

-- A round of the loop, from the store that `AddDownTrack` has left, as seen by the track `id` of the
-- forwarder `f`.
record Round (w u : Store) (f s : ℕ) (key id : String) : Type 0 where
  open_forwarder : (u.forwarders f).closed ≡ false
  routers : u.routers ≡ w.routers
  track_id : (j : ℕ) → (u.tracks j).track_id ≡ (w.tracks j).track_id
  own : key ≡ id → IsConnected u f id s
  other : key ≢ id → IsConnected w f id s → IsConnected u f id s

-- What the loop has made of the connection of one track, if it has returned no error.
record Looped (w v : Store) (f s : ℕ) (tracks : List (String × ℕ)) (id : String) : Type 0 where
  keeps : IsConnected w f id s → IsConnected v f id s
  connects : (t : ℕ) → lookup id tracks ≡ some t → IsConnected v f id s
  routers : v.routers ≡ w.routers
