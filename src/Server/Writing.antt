-- ===== src/Server/Writing.antt =====
-- pkg/sfu/forwarder.go: the write of a packet to one downtrack (writeToDownTrack), as the streams see it.
use mathlib.Core.List.{append-nil}
use choice.Base.{
  if◌then◌else◌, ◌==◌, nat_eq, string_eq, beq_self, Bool-cases, ℕ, ◌<◌, String, ◌≡◌, refl, sym, ap,
  ◌∙◌, subst, ◌≢◌, inl, inr, Option, none, some, List, [], ◌∷◌, ◌++◌, arith, NoRepeat,
}
use choice.Rtp.{Packet, rewrite}
use choice.Rtp.Sequencer.Continuity.{rewrite_all}
use choice.DownTrack.Stream.{write_rtp-Sends}
use choice.Store.{Store, Env, rtp, update}
use choice.Store.Rooms.{
  Sets, packet_to, packets_to, packets_to-append, SameRooms, SameRooms-trans, SameRooms-refl,
  Quiet-SameRooms, Quiet,
}
use choice.Forwarder.{on_layer_switch, note_sent, write_down_track}
use choice.Forwarder.Delivery.{written, write_down_track_lem}
use choice.Roster.Media.{on_layer_switch-Quiet}
use choice.Server.Streams.{
  sequencer_after, Stream, Stream-trans, Silent-Stream, Picks, nothing, skip, take,
}

-- What the stream of `dt` is given on the way to `w'` is the packet, or nothing.
pub record Given (w w' : Store) (dt : ℕ) (p : Packet) : Type 0 where
  pub given : List Packet
  pub stream : Stream w w' dt given
  pub picks : Picks (p ∷ []) given

pub Quiet-Given : {w w' : Store} (dt : ℕ) (p : Packet) → Quiet w w' → dt < w.next → Given w w' dt p
Quiet-Given dt p h l = record {
  given = [];
  stream = Silent-Stream dt h.next h.silent l;
  picks = skip nothing;
}

pub then_nothing :
    {a b c : Store} {dt : ℕ} {p : Packet} → Given a b dt p → Stream b c dt [] → Given a c dt p
then_nothing g s = record {
  given = g.given ++ [];
  stream = Stream-trans g.stream s;
  picks = subst (Picks _) (sym (append-nil g.given)) g.picks;
}

-- The packets that a write hands on.
sent_packets : Option Packet → List Packet
sent_packets none = []
sent_packets (some p) = p ∷ []

note_sent-packets :
    (w : Store) (k dt : ℕ) (o : Option Packet)
    → packets_to dt (note_sent w k o).log
      ≡ packets_to dt w.log ++ (if k == dt then sent_packets o else [])
unfolding note_sent packets_to packet_to sent_packets
note_sent-packets w k dt none = ground (arith, append-nil (packets_to dt w.log))
note_sent-packets w k dt (some p) =
    packets_to-append dt w.log (rtp k p ∷ []) ∙ ground (arith, append-nil (packet_to dt (rtp k p)))

note_sent-SameRooms : (w : Store) (dt : ℕ) (o : Option Packet) → SameRooms w (note_sent w dt o)
unfolding note_sent
note_sent-SameRooms w dt none = SameRooms-refl w
note_sent-SameRooms w dt (some p) = record {
  session_table = refl;
  sessions = refl;
  peers = refl;
  next = omega arith;
}

-- The effects of a write, on the store in which the downtrack is updated.
write_down_track-packets :
    (env : Env) (w : Store) (k dt : ℕ) (p : Packet) (layer : String)
    → dt < w.next
    → let w' = (write_down_track env w k p layer).0 in
      packets_to dt w'.log
      ≡ packets_to dt w.log ++ (if k == dt then sent_packets (written env w k p layer).sent else [])
unfolding write_down_track
write_down_track-packets env w k dt p layer l =
    let r = written env w k p layer in
    let track = w.tracks (w.down_tracks k).track_receiver in
    let w₁ : Store = record w { down_tracks = update w.down_tracks k r.down_track } in
    let h = on_layer_switch-Quiet w₁ track r.request in
    let w₂ = on_layer_switch w₁ track r.request in
    let (_, _, z) = h.silent.0 dt l in
    note_sent-packets w₂ k dt r.sent
    ∙ ap (λ x. x ++ (if k == dt then sent_packets r.sent else [])) z

pub write_down_track-SameRooms :
    (env : Env) (w : Store) (k : ℕ) (p : Packet) (layer : String)
    → SameRooms w (write_down_track env w k p layer).0
unfolding write_down_track
write_down_track-SameRooms env w k p layer =
    let r = written env w k p layer in
    let track = w.tracks (w.down_tracks k).track_receiver in
    let w₁ : Store = record w { down_tracks = update w.down_tracks k r.down_track } in
    let h = Quiet-SameRooms (on_layer_switch-Quiet w₁ track r.request) in
    let s = SameRooms-trans h (note_sent-SameRooms (on_layer_switch w₁ track r.request) k r.sent) in
    record {
      session_table = s.session_table;
      sessions = s.sessions;
      peers = s.peers;
      next = omega (arith, s.next);
    }

-- A write to the downtrack itself rewrites the packet or holds it back.
pub write_own-Given :
    (env : Env) (w : Store) (dt : ℕ) (p : Packet) (layer : String)
    → dt < w.next
    → Given w (write_down_track env w dt p layer).0 dt p
unfolding rewrite_all sequencer_after sent_packets
write_own-Given env w dt p layer l =
    let d = w.down_tracks dt in
    let r = written env w dt p layer in
    let v =
      write_rtp-Sends (env.transmit dt) d (w.tracks d.track_receiver) (env.clock dt) p layer in
    let (down_tracks, _, _, _) = write_down_track_lem env w dt p layer in
    let packets = write_down_track-packets env w dt dt p layer l in
    let rooms = write_down_track-SameRooms env w dt p layer in
    let w' = (write_down_track env w dt p layer).0 in
    let here : w'.down_tracks dt ≡ r.down_track =
      ap (λ t. t dt) down_tracks ∙ ground (arith, beq_self dt) in
    let out : packets_to dt w'.log ≡ packets_to dt w.log ++ sent_packets r.sent =
      packets ∙ ground (arith, beq_self dt) in
    let seq = ap (λ x. x.sequencer) here ∙ v.sequencer in
    let ssrc = ap (λ x. x.sender_ssrc) here ∙ v.ssrc in
    elim (Bool-cases v.passes) [
      | inl y ↦
          let sends : r.sent ≡ some (rewrite d.sequencer p d.sender_ssrc).1 =
            v.out_lem ∙ rw y refl in
          record {
            given = p ∷ [];
            stream = record {
              next = rooms.next;
              ssrc = ssrc;
              sequencer = seq ∙ rw y refl;
              packets = out ∙ ap (λ o. packets_to dt w.log ++ sent_packets o) sends;
            };
            picks = take nothing;
          }
      | inr y ↦
          let sends : r.sent ≡ none = v.out_lem ∙ rw y refl in
          record {
            given = [];
            stream = record {
              next = rooms.next;
              ssrc = ssrc;
              sequencer = seq ∙ rw y refl;
              packets = out ∙ ap (λ o. packets_to dt w.log ++ sent_packets o) sends;
            };
            picks = skip nothing;
          }
    ]

-- A write to another downtrack.
pub write_other-Stream :
    (env : Env) (w : Store) (k dt : ℕ) (p : Packet) (layer : String)
    → k ≢ dt
    → dt < w.next
    → Stream w (write_down_track env w k p layer).0 dt []
unfolding rewrite_all sequencer_after
write_other-Stream env w k dt p layer n l =
    let (down_tracks, _, _, _) = write_down_track_lem env w k p layer in
    let packets = write_down_track-packets env w k dt p layer l in
    let rooms = write_down_track-SameRooms env w k p layer in
    let here = ap (λ t. t dt) down_tracks in
    record {
      next = rooms.next;
      ssrc = ground (arith, ap (λ x. x.sender_ssrc) here, n);
      sequencer = ground (arith, ap (λ x. x.sequencer) here, n);
      packets = packets ∙ ground (arith, n);
    }

-- A write keeps the sets free of repetitions.
pub write_down_track-Sets :
    (env : Env) (w : Store) (k : ℕ) (p : Packet) (layer : String)
    → Sets w (write_down_track env w k p layer).0
write_down_track-Sets env w k p layer h f =
    let (_, _, same, _) = write_down_track_lem env w k p layer in
    subst (λ g. NoRepeat (g f).down_tracks) (sym same) (h f)
