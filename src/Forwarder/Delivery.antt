-- ===== src/Forwarder/Delivery.antt =====
-- pkg/sfu/forwarder.go: what `Forward` does to the downtracks and to the forwarder's set.
use choice.Base.{
  if◌then◌else◌, ◌==◌, nat_eq, string_eq, Option-cases, contains, ℕ, String, ◌≡◌, refl, ap, ◌∙◌,
  subst, inl, inr, Bool, true, false, not, ◌&&◌, Option, none, some, List, [], ◌∷◌, arith,
  contains-exclude, NoRepeat,
}
use native.Mathlib.Decide.{ℕ_discrete as dec_eq}
use choice.Rtp.{Packet}
use choice.Receiver.{send_pli}
use choice.Track.{TrackReceiver}
use choice.DownTrack.{Written, write_rtp, request_keyframe}
use choice.Store.{Store, Env, update}
use choice.Forwarder.{
  ask_keyframe, on_layer_switch, note_sent, write_down_track, remove_from_forwarder, drop_failed,
  forward_each, forward,
}

-- What one downtrack makes of the packet, on the store as it stands.
abbrev pub written : Env → Store → ℕ → Packet → String → Written
written env w dt packet from_layer =
    let d = w.down_tracks dt in
    write_rtp (env.transmit dt) d (w.tracks d.track_receiver) (env.clock dt) packet from_layer

abbrev pub failed : Option String → Bool
failed none = false
failed (some err) = true

-- Two stores that differ in their logs at most.
pub record SameButLog (w w' : Store) : Type 0 where
  pub down_tracks : w'.down_tracks ≡ w.down_tracks
  pub tracks : w'.tracks ≡ w.tracks
  pub forwarders : w'.forwarders ≡ w.forwarders

pub ask_keyframe_lem : (w : Store) (asked : Option ℕ) → SameButLog w (ask_keyframe w asked)
unfolding ask_keyframe
ask_keyframe_lem w none = record { down_tracks = refl; tracks = refl; forwarders = refl }
ask_keyframe_lem w (some r) = elim (Option-cases (send_pli (w.receivers r))) [
  | inl e ↦ rw (e, ask_keyframe) (record { down_tracks = refl; tracks = refl; forwarders = refl })
  | inr (x, e) ↦
      rw (e, ask_keyframe) (record { down_tracks = refl; tracks = refl; forwarders = refl })
]

on_layer_switch_lem :
    (w : Store) (track : TrackReceiver) (request : Option String)
    → SameButLog w (on_layer_switch w track request)
unfolding on_layer_switch
on_layer_switch_lem w track none = record { down_tracks = refl; tracks = refl; forwarders = refl }
on_layer_switch_lem w track (some layer) = ask_keyframe_lem w (request_keyframe track layer)

note_sent_lem : (w : Store) (dt : ℕ) (sent : Option Packet) → SameButLog w (note_sent w dt sent)
unfolding note_sent
note_sent_lem w dt none = record { down_tracks = refl; tracks = refl; forwarders = refl }
note_sent_lem w dt (some p) = record { down_tracks = refl; tracks = refl; forwarders = refl }

-- A write changes one downtrack, and no track and no forwarder.
pub write_down_track_lem :
    (env : Env) (w : Store) (dt : ℕ) (packet : Packet) (from_layer : String)
    → let (w', err) = write_down_track env w dt packet from_layer in
      (w'.down_tracks ≡ update w.down_tracks dt (written env w dt packet from_layer).down_track)
      × (w'.tracks ≡ w.tracks)
      × (w'.forwarders ≡ w.forwarders)
      × (err ≡ (written env w dt packet from_layer).error)
unfolding write_down_track
write_down_track_lem env w dt packet from_layer =
    let r = written env w dt packet from_layer in
    let w₁ : Store = record w { down_tracks = update w.down_tracks dt r.down_track } in
    let track = w.tracks (w.down_tracks dt).track_receiver in
    let a = on_layer_switch_lem w₁ track r.request in
    let b = note_sent_lem (on_layer_switch w₁ track r.request) dt r.sent in
    (b.down_tracks ∙ a.down_tracks, b.tracks ∙ a.tracks, b.forwarders ∙ a.forwarders, refl)

drop_failed_lem :
    (w : Store) (f dt : ℕ) (err : Option String)
    → let w' = drop_failed w f dt err in
      (w'.down_tracks ≡ w.down_tracks)
      × (w'.tracks ≡ w.tracks)
      × ((j : ℕ)
          → contains j (w'.forwarders f).down_tracks
            ≡ (not (dt == j && failed err) && contains j (w.forwarders f).down_tracks))
unfolding drop_failed remove_from_forwarder
drop_failed_lem w f dt none = (refl, refl, λ j. ground arith)
drop_failed_lem w f dt (some err) =
    (refl, refl, λ j. ground (arith, contains-exclude dt j (w.forwarders f).down_tracks))

written_cong :
    (env : Env) (w w' : Store) (j : ℕ) (packet : Packet) (from_layer : String)
    → w'.down_tracks j ≡ w.down_tracks j
    → w'.tracks ≡ w.tracks
    → written env w' j packet from_layer ≡ written env w j packet from_layer
written_cong env w w' j packet from_layer d t = λ i.
    write_rtp (env.transmit j) (d i) ((t i) (d i).track_receiver) (env.clock j) packet from_layer

-- One round of the loop.
round_lem :
    (env : Env) (w : Store) (f : ℕ) (packet : Packet) (from_layer : String) (dt j : ℕ)
    → let (w₁, err) = write_down_track env w dt packet from_layer in
      let w₂ = drop_failed w₁ f dt err in
      let r = written env w j packet from_layer in
      (w₂.down_tracks j ≡ (if dt == j then r.down_track else w.down_tracks j))
      × (w₂.tracks ≡ w.tracks)
      × (contains j (w₂.forwarders f).down_tracks
          ≡ (not (dt == j && failed r.error) && contains j (w.forwarders f).down_tracks))
round_lem env w f packet from_layer dt j =
    let (w₁, err) = write_down_track env w dt packet from_layer in
    let (a, b, c, d) = write_down_track_lem env w dt packet from_layer in
    let (a', b', c') = drop_failed_lem w₁ f dt err in
    let here : (drop_failed w₁ f dt err).down_tracks j
        ≡ update w.down_tracks dt (written env w dt packet from_layer).down_track j =
      ap (λ t. t j) (a' ∙ a) in
    let set : (w₁.forwarders f).down_tracks ≡ (w.forwarders f).down_tracks =
      ap (λ t. (t f).down_tracks) c in
    let e = ap (λ k. written env w k packet from_layer) {x = dt} {y = j} in
    elim (dec_eq dt j) [
      | yes p ↦ (ground (arith, here, e p), b' ∙ b, ground (arith, c' j, set, d, e p, p))
      | no n ↦ (ground (arith, here, n), b' ∙ b, ground (arith, c' j, set, n))
    ]

-- What `dts` downtracks, written to in turn, have made of the store `w`, as far as `j` can see.
record Delivered (env : Env) (w w' : Store) (f : ℕ) (packet : Packet) (from_layer : String)
    (dts : List ℕ) (j : ℕ) : Type 0 where
  down_track :
      w'.down_tracks j
      ≡ (if contains j dts then (written env w j packet from_layer).down_track else w.down_tracks j)
  tracks : w'.tracks ≡ w.tracks
  members : contains j (w'.forwarders f).down_tracks ≡ (
      not (contains j dts && failed (written env w j packet from_layer).error)
      && contains j (w.forwarders f).down_tracks)

Delivered-nil :
    (env : Env) (w : Store) (f : ℕ) (packet : Packet) (from_layer : String) (j : ℕ)
    → Delivered env w w f packet from_layer [] j
unfolding contains
Delivered-nil env w f packet from_layer j = record {
  down_track = refl;
  tracks = refl;
  members = ground arith;
}

Delivered-cons :
    (env : Env) (w w₂ w' : Store) (f : ℕ) (packet : Packet) (from_layer : String) (dt : ℕ)
    (dts : List ℕ) (j : ℕ)
    → contains dt dts ≡ false
    → (w₂.down_tracks j
        ≡ (if dt == j then (written env w j packet from_layer).down_track else w.down_tracks j))
    → (w₂.tracks ≡ w.tracks)
    → (contains j (w₂.forwarders f).down_tracks ≡ (
        not (dt == j && failed (written env w j packet from_layer).error)
        && contains j (w.forwarders f).down_tracks))
    → Delivered env w₂ w' f packet from_layer dts j
    → Delivered env w w' f packet from_layer (dt ∷ dts) j
unfolding contains
Delivered-cons env w w₂ w' f packet from_layer dt dts j fresh a b c v = elim (dec_eq dt j) [
  | yes p ↦
      let out : contains j dts ≡ false = subst (λ k. contains k dts ≡ false) p fresh in
      record {
        down_track = ground (arith, a, v.down_track, out, p);
        tracks = v.tracks ∙ b;
        members = ground (arith, c, v.members, out, p);
      }
  | no n ↦
      let same : w₂.down_tracks j ≡ w.down_tracks j = ground (arith, a, n) in
      let e = written_cong env w w₂ j packet from_layer same b in
      record {
        down_track = ground (arith, same, v.down_track, e, n);
        tracks = v.tracks ∙ b;
        members = ground (arith, c, v.members, e, n);
      }
]

forward_each_lem :
    (env : Env) (w : Store) (f : ℕ) (packet : Packet) (from_layer : String) (dts : List ℕ) (j : ℕ)
    → NoRepeat dts
    → Delivered env w (forward_each env w f packet from_layer dts) f packet from_layer dts j
unfolding forward_each
forward_each_lem env w f packet from_layer [] j u = Delivered-nil env w f packet from_layer j
forward_each_lem env w f packet from_layer (dt ∷ dts) j (fresh, u) =
    let (w₁, err) = write_down_track env w dt packet from_layer in
    let w₂ = drop_failed w₁ f dt err in
    let (a, b, c) = round_lem env w f packet from_layer dt j in
    Delivered-cons env w w₂ (forward_each env w₂ f packet from_layer dts) f packet from_layer dt dts
      j fresh a b c (forward_each_lem env w₂ f packet from_layer dts j u)

pub forward_delivers :
    (env : Env) (w : Store) (f : ℕ) (packet : Packet) (from_layer : String) (dt : ℕ)
    → NoRepeat (w.forwarders f).down_tracks
    → let w' = forward env w f packet from_layer in
      let r = written env w dt packet from_layer in
      let member = contains dt (w.forwarders f).down_tracks in
      (w'.down_tracks dt ≡ (if member then r.down_track else w.down_tracks dt))
      × (w'.tracks ≡ w.tracks)
      × (contains dt (w'.forwarders f).down_tracks ≡ (member && not (failed r.error)))
unfolding forward
forward_delivers env w f packet from_layer dt u =
    let v = forward_each_lem env w f packet from_layer (w.forwarders f).down_tracks dt u in
    (v.down_track, v.tracks, ground (arith, v.members))
