-- ===== src/Server/Feeding.antt =====
-- pkg/sfu/receiver.go and pkg/sfu/publisher.go: one round of `readRTP`, and the packets that events bring.
use choice.Base.{
  nat_eq, string_eq, Bool-cases, Option-cases, ℕ, ◌≤◌, ◌<◌, String, ◌≡◌, refl, sym, ◌∙◌, subst, ◌⊎◌,
  inl, inr, List, [], ◌∷◌, NoRepeat,
}
use choice.Rtp.{Packet}
use choice.Receiver.{LayerReceiver, Reading, read_packet}
use choice.Store.{Store, Env}
use choice.Store.Rooms.{Sets, Silent, Quiet, SameRooms, Quiet-SameRooms, keeps}
use choice.Publisher.{read_rtp}
use choice.Router.{router_forward}
use choice.Server.{
  Event, message, hang_up, track, reading, keyframe_due, data_message, publisher_candidate,
  subscriber_candidate, publisher_state, subscriber_state,
}
use choice.Server.Streams.{Stream, Silent-Stream, Picks, nothing, skip}
use choice.Server.Forwarding.{router_forward-Given, router_forward-SameRooms, router_forward-Sets}

-- The packet that a reading brings.
unfoldable pub brought : String ⊎ Packet → List Packet
brought (inl e) = []
brought (inr p) = p ∷ []

unfoldable pub arrivals_of : Event → List Packet
unfolding brought
arrivals_of (message conn decode text) = []
arrivals_of (hang_up conn) = []
arrivals_of (track p remote) = []
arrivals_of (reading r receiver layer_name t x) = brought x.read
arrivals_of (keyframe_due dt) = []
arrivals_of (data_message p content) = []
arrivals_of (publisher_candidate p candidate) = []
arrivals_of (subscriber_candidate s candidate) = []
arrivals_of (publisher_state p state) = []
arrivals_of (subscriber_state s state) = []

-- What an event gives to the stream of `dt`, on the way to `w'`.
pub record Fed (w w' : Store) (dt : ℕ) (arrived : List Packet) : Type 0 where
  pub given : List Packet
  pub stream : Stream w w' dt given
  pub picks : Picks arrived given

pub Silent-Fed :
    {w w' : Store} (dt : ℕ) → w.next ≤ w'.next → Silent w w' → dt < w.next → Fed w w' dt []
Silent-Fed dt n h l = record { given = []; stream = Silent-Stream dt n h l; picks = nothing }

Read-cases : (r : String ⊎ Packet) → ((e : String) × (r ≡ inl e)) ⊎ ((p : Packet) × (r ≡ inr p))
Read-cases (inl e) = inl (e, refl)
Read-cases (inr p) = inr (p, refl)

read_packet-read :
    (r : LayerReceiver) (x : Reading) (p : Packet) → read_packet r x ≡ inr p → x.read ≡ inr p
unfolding read_packet
read_packet-read r x p h = elim (Bool-cases r.closed) [
  | inl c ↦ let q : read_packet r x ≡ inl "EOF" = rw c refl in absurd (cc (h, q))
  | inr o ↦ elim (Option-cases x.deadline) [
    | inr (e, d) ↦
        let q : read_packet r x ≡ inl e = rw o (rw (d, read_packet) refl) in absurd (cc (h, q))
    | inl d ↦ let q : read_packet r x ≡ x.read = rw o (rw (d, read_packet) refl) in sym q ∙ h
  ]
]

Picks-none : (ps : List Packet) → Picks ps []
Picks-none [] = nothing
Picks-none (p ∷ ps) = skip (Picks-none ps)

-- A round of `readRTP` either closes the receiver or forwards the packet that the track has read.
round_cases :
    (env : Env) (w : Store) (r receiver : ℕ) (layer_name : String) (t : ℕ) (x : Reading)
    → let w' = (read_rtp r receiver layer_name t w ((env, x) ∷ [])).0 in
      Quiet w w'
      ⊎ ((p : Packet) × (x.read ≡ inr p)
          × (w' ≡ router_forward env w r (w.tracks t).track_id p layer_name))
unfolding read_rtp
round_cases env w r receiver layer_name t x =
    elim (Read-cases (read_packet (w.receivers receiver) x)) [
      | inl (e, h) ↦ inl (rw (h, read_rtp) (keeps refl refl refl refl refl refl refl))
      | inr (p, h) ↦ inr (p, read_packet-read (w.receivers receiver) x p h, rw (h, read_rtp) refl)
    ]

-- What a round brings reaches the streams, and the rooms stay as they are.
pub round-Fed :
    (env : Env) (w : Store) (r receiver : ℕ) (layer_name : String) (t : ℕ) (x : Reading) (dt : ℕ)
    → ((f : ℕ) → NoRepeat (w.forwarders f).down_tracks)
    → dt < w.next
    → let w' = (read_rtp r receiver layer_name t w ((env, x) ∷ [])).0 in
      Fed w w' dt (brought x.read)
unfolding brought
round-Fed env w r receiver layer_name t x dt u l =
    elim (round_cases env w r receiver layer_name t x) [
      | inl h ↦ record {
        given = [];
        stream = Silent-Stream dt h.next h.silent l;
        picks = Picks-none (brought x.read);
      }
      | inr (p, e, h) ↦
          let g = router_forward-Given env w r dt (w.tracks t).track_id p layer_name u l in
          rw h (record {
            given = g.given;
            stream = g.stream;
            picks = subst (λ y. Picks (brought y) g.given) (sym e) g.picks;
          })
    ]

pub round-SameRooms :
    (env : Env) (w : Store) (r receiver : ℕ) (layer_name : String) (t : ℕ) (x : Reading)
    → SameRooms w (read_rtp r receiver layer_name t w ((env, x) ∷ [])).0
round-SameRooms env w r receiver layer_name t x =
    elim (round_cases env w r receiver layer_name t x) [
      | inl h ↦ Quiet-SameRooms h
      | inr (p, _, h) ↦ rw h (router_forward-SameRooms env w r (w.tracks t).track_id p layer_name)
    ]

pub round-Sets :
    (env : Env) (w : Store) (r receiver : ℕ) (layer_name : String) (t : ℕ) (x : Reading)
    → Sets w (read_rtp r receiver layer_name t w ((env, x) ∷ [])).0
round-Sets env w r receiver layer_name t x = elim (round_cases env w r receiver layer_name t x) [
  | inl h ↦ h.silent.1
  | inr (p, _, e) ↦ rw e (router_forward-Sets env w r (w.tracks t).track_id p layer_name)
]
