-- ===== src/Router/Concurrent/Steps.antt =====
-- pkg/sfu/router.go: what the steps of `AddTrack` and `Subscribe` keep.
use choice.Base.{
  nat_eq, string_eq, Bool-cases, Option-cases, lookup, contains, ℕ, String, ◌≡◌, refl, sym, ap, ◌∙◌,
  subst, ◌≢◌, ◌⊎◌, inl, inr, false, Option, none, some, List,
}
use native.Mathlib.Decide.{ℕ_discrete as dec_eq}
use choice.Store.{Store, Env}
use choice.Forwarder.{add_to_forwarder}
use choice.Subscriber.{negotiate_subscriber, get_down_track}
use choice.Subscriber.DownTracks.{Added}
use choice.Subscriber.Negotiating.{negotiate_subscriber_lem}
use choice.Messages.{broadcast}
use choice.Messages.Broadcast.{broadcast_reaches}
use choice.Router.{connect, connect_known}
use choice.Router.Joining.{IsConnected}
use choice.Router.Completing.{connect_known-Kept}

-- What every step but the first ones of the two calls keeps.
pub record Frame (w w' : Store) : Type 0 where
  pub routers : w'.routers ≡ w.routers
  pub track_id : (j : ℕ) → (w'.tracks j).track_id ≡ (w.tracks j).track_id
  pub open_forwarder : (f : ℕ) → (w.forwarders f).closed ≡ false → (w'.forwarders f).closed ≡ false

-- The connection of a subscriber to an open forwarder outlives the step.
unfoldable pub KeepsConnection : Store → Store → ℕ → String → Type 0
KeepsConnection w w' s id =
    (f : ℕ) → (w.forwarders f).closed ≡ false → IsConnected w f id s → IsConnected w' f id s

pub Frame-refl : (w : Store) → Frame w w
Frame-refl w = record { routers = refl; track_id = λ j. refl; open_forwarder = λ f o. o }

-- A broadcast.
pub broadcast-Frame :
    (env : Env) (w : Store) (k : ℕ) (left_out method : String) (params : List (String × String))
    → let w' = broadcast env w k left_out method params in
      (s : ℕ) (id : String) → Frame w w' × KeepsConnection w w' s id
unfolding KeepsConnection IsConnected
broadcast-Frame env w k left_out method params s id =
    subst (λ x. Frame w x × KeepsConnection w x s id)
      (sym (broadcast_reaches env w k left_out method params))
      (record { routers = refl; track_id = λ j. refl; open_forwarder = λ f o. o }, λ f o c. c)

-- A negotiation.
pub negotiate-Frame :
    (env : Env) (w : Store) (k s : ℕ) (id : String)
    → let w' = (negotiate_subscriber env w k).0 in Frame w w' × KeepsConnection w w' s id
unfolding KeepsConnection IsConnected
negotiate-Frame env w k s id =
    let n = negotiate_subscriber_lem env w k in
    (
      record {
        routers = n.routers;
        track_id = λ j. ap (λ g. (g j).track_id) n.tracks;
        open_forwarder = λ f o. ap (λ g. (g f).closed) n.forwarders ∙ o;
      },
      λ f o c dt h.
          ap (λ g. contains dt (g f).down_tracks) n.forwarders
          ∙ c dt (ap (lookup id) (sym (n.subscribers s)) ∙ h),
    )

add_to_forwarder_same :
    (w : Store) (g dt : ℕ)
    → let w' = add_to_forwarder w g dt in (w'.routers ≡ w.routers) × (w'.tracks ≡ w.tracks)
unfolding add_to_forwarder
add_to_forwarder_same w g dt = elim (Bool-cases (w.forwarders g).closed) [
  | inl c ↦ rw c (refl, refl)
  | inr c ↦ rw c (refl, refl)
]

connect_known_same :
    (w : Store) (g : Option ℕ) (k : ℕ) (key : String)
    → let w' = connect_known w g k key in (w'.routers ≡ w.routers) × (w'.tracks ≡ w.tracks)
unfolding connect_known connect get_down_track
connect_known_same w none k key = (refl, refl)
connect_known_same w (some g) k key =
    elim (Option-cases (lookup key (w.subscribers k).down_tracks)) [
      | inl h ↦ rw (h, connect) (refl, refl)
      | inr (dt, h) ↦ rw (h, connect) (add_to_forwarder_same w g dt)
    ]

-- A downtrack of a subscriber is put into a forwarder's set.
pub connect_known-Frame :
    (w : Store) (g : Option ℕ) (k : ℕ) (key : String) (s : ℕ) (id : String)
    → let w' = connect_known w g k key in Frame w w' × KeepsConnection w w' s id
unfolding KeepsConnection IsConnected
connect_known-Frame w g k key s id =
    let (routers, tracks) = connect_known_same w g k key in
    (
      record {
        routers = routers;
        track_id = λ j. ap (λ x. (x j).track_id) tracks;
        open_forwarder = λ f o. (connect_known-Kept w f k g key o).open_forwarder;
      },
      λ f o c dt h.
          let kept = connect_known-Kept w f k g key o in
          kept.members dt (c dt (ap (λ x. lookup id (x s).down_tracks) (sym kept.subscribers) ∙ h)),
    )

-- A downtrack is added to a subscriber.
pub Added-Frame :
    (w w' : Store) (k t : ℕ) (result : Option String) → Added w w' k t result → Frame w w'
Added-Frame w w' k t result a = record {
  routers = a.routers;
  track_id = a.track_id;
  open_forwarder = λ f o. ap (λ g. (g f).closed) a.forwarders ∙ o;
}

-- It is another subscriber's, or for another track.
pub Added-other :
    (w w' : Store) (k t s : ℕ) (id : String) (result : Option String)
    → Added w w' k t result
    → (k ≢ s) ⊎ ((w.tracks t).track_id ≢ id)
    → KeepsConnection w w' s id
unfolding KeepsConnection IsConnected
Added-other w w' k t s id result a n f o c dt h =
    let same : lookup id (w'.subscribers s).down_tracks ≡ lookup id (w.subscribers s).down_tracks =
      elim (dec_eq k s) [
        | no m ↦ ap (lookup id) (a.others s m)
        | yes e ↦ elim n [
          | inl m ↦ absurd (m e)
          | inr m ↦
              subst
                (λ x.
                  lookup id (w'.subscribers x).down_tracks
                  ≡ lookup id (w.subscribers x).down_tracks)
                e (a.other_ids id m)
        ]
      ] in
    ap (λ g. contains dt (g f).down_tracks) a.forwarders ∙ c dt (sym same ∙ h)

-- It could not be made.
pub Added-failed :
    (w w' : Store) (s t f : ℕ) (e : String)
    → Added w w' s t (some e)
    → IsConnected w' f (w.tracks t).track_id s
unfolding IsConnected
Added-failed w w' s t f e a dt h = absurd (cc (a.failed e refl, h))
