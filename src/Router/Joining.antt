-- ===== src/Router/Joining.antt =====
-- pkg/sfu/router.go: the loop of `AddTrack` over the subscribers.
use choice.Base.{
  nat_eq, string_eq, beq_self, Option-cases, lookup, contains, contains-include, ℕ, String, ◌≡◌,
  refl, sym, ap, ◌∙◌, subst, inl, inr, true, false, Option, none, some, List, [], ◌∷◌, arith,
}
use native.Mathlib.Decide.{ℕ_discrete as dec_eq}
use choice.Store.{Store, Env}
use choice.Forwarder.{add_to_forwarder}
use choice.Subscriber.{subscriber_add_down_track, get_down_track, negotiate_subscriber}
use choice.Subscriber.Negotiating.{negotiate_subscriber_lem}
use choice.Subscriber.DownTracks.{Added, subscriber_add_down_track_lem}
use choice.Router.{connect, join_one, join_each}

-- The subscriber's downtrack for the track is in the forwarder's set, if it has one.
unfoldable pub IsConnected : Store → ℕ → String → ℕ → Type 0
IsConnected w f id s =
    (dt : ℕ)
    → lookup id (w.subscribers s).down_tracks ≡ some dt
    → contains dt (w.forwarders f).down_tracks ≡ true

-- What one or more rounds of the loop of `AddTrack` keep.
pub record Joined (w w' : Store) (f t : ℕ) (id : String) : Type 0 where
  pub open_forwarder : (w'.forwarders f).closed ≡ false
  pub source : (w'.forwarders f).track_receiver ≡ (w.forwarders f).track_receiver
  pub track_id : (w'.tracks t).track_id ≡ id
  pub routers : w'.routers ≡ w.routers
  pub members :
      (j : ℕ)
      → contains j (w.forwarders f).down_tracks ≡ true
      → contains j (w'.forwarders f).down_tracks ≡ true
  pub mapped :
      (k dt : ℕ)
      → lookup id (w.subscribers k).down_tracks ≡ some dt
      → lookup id (w'.subscribers k).down_tracks ≡ some dt
  pub connected : (k : ℕ) → IsConnected w f id k → IsConnected w' f id k

pub connect_lem :
    (w : Store) (f s : ℕ) (id : String)
    → (w.forwarders f).closed ≡ false
    → let w' = connect w f s id in
      (w'.subscribers ≡ w.subscribers)
      × (w'.tracks ≡ w.tracks)
      × (w'.routers ≡ w.routers)
      × ((w'.forwarders f).closed ≡ false)
      × ((w'.forwarders f).track_receiver ≡ (w.forwarders f).track_receiver)
      × ((j : ℕ)
          → contains j (w.forwarders f).down_tracks ≡ true
          → contains j (w'.forwarders f).down_tracks ≡ true)
      × IsConnected w' f id s
unfolding connect get_down_track IsConnected add_to_forwarder
connect_lem w f s id o = elim (Option-cases (lookup id (w.subscribers s).down_tracks)) [
  | inl h ↦ rw (h, connect) (refl, refl, refl, o, refl, λ j m. m, λ dt e. absurd (cc (e, h)))
  | inr (d, h) ↦
      rw (h, connect, o)
        (let set = (w.forwarders f).down_tracks in
          (
            refl,
            refl,
            refl,
            ground (arith, beq_self f),
            ground (arith, beq_self f),
            λ j m. ground (arith, beq_self f, contains-include d j set),
            λ dt e. ground (arith, beq_self f, contains-include d dt set, beq_self dt, h, e),
          ))
]

same_map :
    (w v : Store) (s t : ℕ) (result : Option String) (k dt : ℕ)
    → Added w v s t result
    → lookup (w.tracks t).track_id (w.subscribers k).down_tracks ≡ some dt
    → lookup (w.tracks t).track_id (v.subscribers k).down_tracks ≡ some dt
same_map w v s t result k dt a h = elim (dec_eq s k) [
  | yes p ↦
      let h' =
        subst (λ j. lookup (w.tracks t).track_id (w.subscribers j).down_tracks ≡ some dt) (sym p)
          h in
      ap (λ (x : Store). lookup (w.tracks t).track_id (x.subscribers k).down_tracks)
        (a.mapped dt h')
      ∙ h
  | no n ↦ ap (lookup (w.tracks t).track_id) (a.others k n) ∙ h
]

-- A round of the loop, from the store that `AddDownTrack` has left.
join_one_lem :
    (env : Env) (w w' : Store) (f s t : ℕ) (result : Option String)
    → (w.forwarders f).closed ≡ false
    → Added w w' s t result
    → let id = (w.tracks t).track_id in
      let v = join_one env f s id (w', result) in Joined w v f t id × IsConnected v f id s
unfolding join_one IsConnected
join_one_lem env w w' f s t (some e) o a =
    let id = (w.tracks t).track_id in
    let own : IsConnected w' f id s = λ dt h. absurd (cc (a.failed e refl, h)) in
    (
      record {
        open_forwarder = ap (λ g. (g f).closed) a.forwarders ∙ o;
        source = ap (λ g. (g f).track_receiver) a.forwarders;
        track_id = a.track_id t;
        routers = a.routers;
        members = λ j m. ap (λ g. contains j (g f).down_tracks) a.forwarders ∙ m;
        mapped = λ k dt h. same_map w w' s t (some e) k dt a h;
        connected = λ k cn. elim (dec_eq s k) [
          | yes p ↦ subst (IsConnected w' f id) p own
          | no q ↦ λ dt h.
              ap (λ g. contains dt (g f).down_tracks) a.forwarders
              ∙ cn dt (ap (lookup id) (sym (a.others k q)) ∙ h)
        ];
      },
      own,
    )
join_one_lem env w w' f s t none o a =
    let id = (w.tracks t).track_id in
    let u = connect w' f s id in
    let v = (negotiate_subscriber env u s).0 in
    let n = negotiate_subscriber_lem env u s in
    let (x, y, z, c, r, m, own) = connect_lem w' f s id (ap (λ g. (g f).closed) a.forwarders ∙ o) in
    let more : (j : ℕ)
        → contains j (w.forwarders f).down_tracks ≡ true
        → contains j (v.forwarders f).down_tracks ≡ true =
      λ j h.
        ap (λ g. contains j (g f).down_tracks) n.forwarders
        ∙ m j (ap (λ g. contains j (g f).down_tracks) a.forwarders ∙ h) in
    let subs : (k : ℕ) → (v.subscribers k).down_tracks ≡ (w'.subscribers k).down_tracks =
      λ k. n.subscribers k ∙ ap (λ g. (g k).down_tracks) x in
    let own' : IsConnected v f id s = λ dt h.
      ap (λ g. contains dt (g f).down_tracks) n.forwarders
      ∙ own dt (ap (lookup id) (sym (n.subscribers s)) ∙ h) in
    (
      record {
        open_forwarder = ap (λ g. (g f).closed) n.forwarders ∙ c;
        source =
            ap (λ g. (g f).track_receiver) n.forwarders
            ∙ r
            ∙ ap (λ g. (g f).track_receiver) a.forwarders;
        track_id = ap (λ g. (g t).track_id) n.tracks ∙ ap (λ g. (g t).track_id) y ∙ a.track_id t;
        routers = n.routers ∙ z ∙ a.routers;
        members = more;
        mapped = λ k dt h. ap (lookup id) (subs k) ∙ same_map w w' s t none k dt a h;
        connected = λ k cn. elim (dec_eq s k) [
          | yes p ↦ subst (IsConnected v f id) p own'
          | no q ↦ λ dt h. more dt (cn dt (ap (lookup id) (sym (subs k ∙ a.others k q)) ∙ h))
        ];
      },
      own',
    )

Joined-trans :
    (a b c : Store) (f t : ℕ) (id : String)
    → Joined a b f t id
    → Joined b c f t id
    → Joined a c f t id
Joined-trans a b c f t id p q = record {
  open_forwarder = q.open_forwarder;
  source = q.source ∙ p.source;
  track_id = q.track_id;
  routers = q.routers ∙ p.routers;
  members = λ j m. q.members j (p.members j m);
  mapped = λ k dt h. q.mapped k dt (p.mapped k dt h);
  connected = λ k h. q.connected k (p.connected k h);
}

pub join_each_lem :
    (env : Env) (w : Store) (f t : ℕ) (id : String) (subs : List ℕ)
    → (w.forwarders f).closed ≡ false
    → (w.tracks t).track_id ≡ id
    → let v = join_each env w f t id subs in
      Joined w v f t id × ((s : ℕ) → contains s subs ≡ true → IsConnected v f id s)
unfolding join_each contains
join_each_lem env w f t id [] o i = (
  record {
    open_forwarder = o;
    source = refl;
    track_id = i;
    routers = refl;
    members = λ j m. m;
    mapped = λ k dt h. h;
    connected = λ k h. h;
  },
  λ s m. absurd (cc m),
)
join_each_lem env w f t id (s ∷ subs) o i =
    let (w', result) = subscriber_add_down_track env w s t in
    let u = join_one env f s id (w', result) in
    let (j, own) =
      subst
        (λ k.
          Joined w (join_one env f s k (w', result)) f t k
          × IsConnected (join_one env f s k (w', result)) f k s)
        i (join_one_lem env w w' f s t result o (subscriber_add_down_track_lem env w s t)) in
    let v = join_each env u f t id subs in
    let (j', rest) = join_each_lem env u f t id subs j.open_forwarder j.track_id in
    (
      Joined-trans w u v f t id j j',
      λ k m. elim (dec_eq s k) [
        | yes p ↦ j'.connected k (subst (IsConnected u f id) p own)
        | no n ↦ rest k (ground (arith, m, n))
      ],
    )
