-- ===== src/Forwarder/Closing.antt =====
-- pkg/sfu/forwarder.go and pkg/sfu/downtrack.go: closing a downtrack, and closing a forwarder.
use choice.Base.{
  if◌then◌else◌, ◌==◌, nat_eq, string_eq, beq_self, beq→eq, Bool-cases, contains, ℕ, String, ◌≡◌,
  refl, sym, ap, ◌∙◌, subst, inl, inr, true, false, none, List, [], ◌∷◌, arith, NoRepeat,
}
use choice.Rtp.{Packet}
use choice.DownTrack.{DownTrack, write_rtp, close_down_track}
use choice.Store.{Store, Env, Forwarder, update}
use choice.Forwarder.{close_dt, close_each, close_forwarder, add_to_forwarder, forward}
use choice.Forwarder.Delivery.{written, forward_delivers}

-- A downtrack that has been closed.
abbrev pub shut : DownTrack → DownTrack
shut d = record d { closed = true }

shut-closed : (d : DownTrack) → d.closed ≡ true → d ≡ shut d
shut-closed d h = λ i. record d { closed = h i }

-- `Close` closes the downtrack and no other, and leaves the forwarders alone.
pub close_dt_lem :
    (w : Store) (dt j : ℕ)
    → let w' = close_dt w dt in
      (w'.down_tracks j ≡ (if dt == j then shut (w.down_tracks j) else w.down_tracks j))
      × (w'.forwarders ≡ w.forwarders)
unfolding close_dt close_down_track
close_dt_lem w dt j = elim (Bool-cases (w.down_tracks dt).closed) [
  | inl c ↦ rw c (
    ground (
      arith,
      ap (λ k. w.down_tracks k) {x = dt} {y = j},
      beq→eq dt j,
      shut-closed (w.down_tracks dt) c,
    ),
    refl,
  )
  | inr o ↦ rw o (ground (arith, ap (λ k. w.down_tracks k) {x = dt} {y = j}, beq→eq dt j), refl)
]

pub close_each_lem :
    (w : Store) (dts : List ℕ) (j : ℕ)
    → let w' = close_each w dts in
      (w'.down_tracks j ≡ (if contains j dts then shut (w.down_tracks j) else w.down_tracks j))
      × (w'.forwarders ≡ w.forwarders)
unfolding close_each contains
close_each_lem w [] j = (refl, refl)
close_each_lem w (dt ∷ dts) j =
    let (self, same) = close_dt_lem w dt j in
    let (all, same') = close_each_lem (close_dt w dt) dts j in
    (ground (arith, self, all, ap (λ d. shut d) self), same' ∙ same)

-- Closing an open forwarder closes every downtrack in its set and changes no other; and then no downtrack
-- can be added to it. Closing it again changes nothing.
pub close_forwarder_lem :
    (w : Store) (f dt : ℕ)
    → (w.forwarders f).closed ≡ false
    → let w' = close_forwarder w f in
      let d = w.down_tracks dt in
      (w'.down_tracks dt ≡ (if contains dt (w.forwarders f).down_tracks then shut d else d))
      × (add_to_forwarder w' f dt ≡ w')
      × (close_forwarder w' f ≡ w')
unfolding close_forwarder add_to_forwarder
close_forwarder_lem w f dt o =
    let fwd : Forwarder = record (w.forwarders f) { closed = true } in
    let w₁ : Store = record w { forwarders = update w.forwarders f fwd } in
    let (all, same) = close_each_lem w₁ (w.forwarders f).down_tracks dt in
    let is_shut : ((close_each w₁ (w.forwarders f).down_tracks).forwarders f).closed ≡ true =
      ap (λ t. (t f).closed) same ∙ ground arith in
    rw o (all, rw is_shut, rw is_shut)

-- A downtrack that has been closed stays in every forwarder's set: `Close` does not take it out, and when
-- the forwarder then forwards a packet, of whatever layer, the write to the closed downtrack
-- returns no error, so the forwarder does not take it out either. (The set holds no downtrack twice.)
pub closed_stays :
    (env : Env) (w : Store) (f dt : ℕ) (packet : Packet) (from_layer : String)
    → NoRepeat (w.forwarders f).down_tracks
    → contains dt (w.forwarders f).down_tracks ≡ true
    → let closed = close_dt w dt in
      let w' = forward env closed f packet from_layer in
      ((closed.down_tracks dt).closed ≡ true)
      × (contains dt (closed.forwarders f).down_tracks ≡ true)
      × (w'.down_tracks dt ≡ closed.down_tracks dt)
      × (contains dt (w'.forwarders f).down_tracks ≡ true)
unfolding write_rtp
closed_stays env w f dt packet from_layer u m =
    let closed = close_dt w dt in
    let (self, same) = close_dt_lem w dt dt in
    let done : (closed.down_tracks dt).closed ≡ true =
      ap (λ d. d.closed) self ∙ ground (arith, beq_self dt) in
    let set : (closed.forwarders f).down_tracks ≡ (w.forwarders f).down_tracks =
      ap (λ t. (t f).down_tracks) same in
    let u' = subst (NoRepeat {K = ℕ}) (sym set) u in
    let (d, _, k) = forward_delivers env closed f packet from_layer dt u' in
    let idle : written env closed dt packet from_layer
        ≡ record { down_track = closed.down_tracks dt; sent = none; request = none; error = none } =
      rw done in
    (done, rw set m, ground (arith, d, idle, m, set), ground (arith, k, idle, m, set))
