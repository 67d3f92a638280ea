-- ===== src/Server/Continuity.antt =====
-- pkg/sfu/downtrack.go and pkg/sfu/rtp.go in the whole server: the stream that a subscriber gets from one downtrack.
use mathlib.Core.List.{append-nil}
use choice.Base.{
  nat_eq, string_eq, All, ℕ, ◌<◌, ◌≡◌, refl, sym, List, [], ◌∷◌, ◌++◌, arith, NoRepeat,
}
use choice.Rtp.{Packet}
use choice.Rtp.Sequencer.Continuity.{rewrite_all, InRange, steps, source_steps, steps-rewrite_all}
use choice.Store.{Store, Env}
use choice.Store.Rooms.{Sets, Quiet, packets_to}
use choice.Roster.{Rooms}
use choice.Roster.Handling.{handle_message-Follows}
use choice.Server.{
  Event, message, hang_up, track, reading, keyframe_due, data_message, publisher_candidate,
  subscriber_candidate, publisher_state, subscriber_state, serve, serve_all,
}
use choice.Server.Callbacks.{
  hang_up-Quiet, request_initial_keyframe-Quiet, on_data_message-Quiet,
  on_publisher_candidate-Quiet, on_subscriber_candidate-Quiet, on_publisher_state-Quiet,
  on_subscriber_state-Quiet, on_track-SameMembers,
}
use choice.Server.Streams.{sequencer_after, Stream-trans, Picks, nothing, skip, take, Picks-append}
use choice.Server.Feeding.{arrivals_of, Fed, Silent-Fed, round-Fed, round-Sets}
use choice.Server.Rooms.{serve-Tracks}

-- The packets that the tracks of the publishers bring, in order.
unfoldable pub arrivals : List (Env × Event) → List Packet
unfolding arrivals_of
arrivals [] = []
arrivals ((env, e) ∷ es) = arrivals_of e ++ arrivals es

quietly : {w w' : Store} (dt : ℕ) → Quiet w w' → dt < w.next → Fed w w' dt []
quietly dt h l = Silent-Fed dt h.next h.silent l

serve-Fed :
    (env : Env) (w : Store) (e : Event) (dt : ℕ)
    → Rooms w
    → ((f : ℕ) → NoRepeat (w.forwarders f).down_tracks)
    → dt < w.next
    → Fed w (serve env w e) dt (arrivals_of e)
unfolding serve arrivals_of
serve-Fed env w (message conn decode text) dt r u l =
    let f = handle_message-Follows env decode conn w text r in Silent-Fed dt f.next f.silent l
serve-Fed env w (hang_up conn) dt r u l = quietly dt (hang_up-Quiet w conn) l
serve-Fed env w (track p remote) dt r u l =
    let f = on_track-SameMembers env w p remote in Silent-Fed dt f.next f.silent l
serve-Fed env w (reading n receiver layer_name t x) dt r u l =
    round-Fed env w n receiver layer_name t x dt u l
serve-Fed env w (keyframe_due k) dt r u l = quietly dt (request_initial_keyframe-Quiet w k) l
serve-Fed env w (data_message p content) dt r u l =
    quietly dt (on_data_message-Quiet env w p content) l
serve-Fed env w (publisher_candidate p candidate) dt r u l =
    quietly dt (on_publisher_candidate-Quiet env w p candidate) l
serve-Fed env w (subscriber_candidate s candidate) dt r u l =
    quietly dt (on_subscriber_candidate-Quiet env w s candidate) l
serve-Fed env w (publisher_state p state) dt r u l =
    quietly dt (on_publisher_state-Quiet env w p state) l
serve-Fed env w (subscriber_state s state) dt r u l =
    quietly dt (on_subscriber_state-Quiet env w s state) l

serve-Sets : (env : Env) (w : Store) (e : Event) → Rooms w → Sets w (serve env w e)
unfolding serve
serve-Sets env w (message conn decode text) r =
    let f = handle_message-Follows env decode conn w text r in f.silent.1
serve-Sets env w (hang_up conn) r = (hang_up-Quiet w conn).silent.1
serve-Sets env w (track p remote) r = (on_track-SameMembers env w p remote).silent.1
serve-Sets env w (reading n receiver layer_name t x) r = round-Sets env w n receiver layer_name t x
serve-Sets env w (keyframe_due k) r = (request_initial_keyframe-Quiet w k).silent.1
serve-Sets env w (data_message p content) r = (on_data_message-Quiet env w p content).silent.1
serve-Sets env w (publisher_candidate p candidate) r =
    (on_publisher_candidate-Quiet env w p candidate).silent.1
serve-Sets env w (subscriber_candidate s candidate) r =
    (on_subscriber_candidate-Quiet env w s candidate).silent.1
serve-Sets env w (publisher_state p state) r = (on_publisher_state-Quiet env w p state).silent.1
serve-Sets env w (subscriber_state s state) r = (on_subscriber_state-Quiet env w s state).silent.1

pub serve_all-Fed :
    (w : Store) (es : List (Env × Event)) (dt : ℕ)
    → Rooms w
    → ((f : ℕ) → NoRepeat (w.forwarders f).down_tracks)
    → dt < w.next
    → Fed w (serve_all w es) dt (arrivals es)
unfolding serve_all arrivals rewrite_all sequencer_after
serve_all-Fed w [] dt r u l = record {
  given = [];
  stream = record {
    next = omega arith;
    ssrc = refl;
    sequencer = refl;
    packets = sym (append-nil (packets_to dt w.log));
  };
  picks = nothing;
}
serve_all-Fed w ((env, e) ∷ es) dt r u l =
    let w₁ = serve env w e in
    let f = serve-Fed env w e dt r u l in
    let u₁ = serve-Sets env w e r u in
    let g =
      serve_all-Fed w₁ es dt (serve-Tracks env w e r).rooms u₁ (omega (arith, l, f.stream.next)) in
    record {
      given = f.given ++ g.given;
      stream = Stream-trans f.stream g.stream;
      picks = Picks-append f.picks g.picks;
    }

All-Picks : {ps qs : List Packet} → Picks ps qs → All InRange ps → All InRange qs
All-Picks nothing h = tt
All-Picks (skip p) h = All-Picks p h.1
All-Picks (take p) h = (h.0, All-Picks p h.1)

-- Whatever messages, packets and callbacks the server handles, in any order, a downtrack that exists sends nothing
-- but packets picked in order from those that arrive, each at most once, and rewritten one after another; and the
-- sequence numbers and timestamps that it sends advance as those packets do within a source, and by one at each
-- change of source. (At the start the rooms are well formed and no forwarder's set holds a downtrack twice; the
-- fields of the packets that arrive are in range.)
pub served_stream :
    (w : Store) (es : List (Env × Event)) (dt : ℕ)
    → Rooms w
    → ((f : ℕ) → NoRepeat (w.forwarders f).down_tracks)
    → dt < w.next
    → All InRange (arrivals es)
    → let d = w.down_tracks dt in
      (given : List Packet) × Picks (arrivals es) given
      × (packets_to dt (serve_all w es).log
          ≡ packets_to dt w.log ++ rewrite_all d.sequencer given d.sender_ssrc)
      × (steps (rewrite_all d.sequencer given d.sender_ssrc) ≡ source_steps given)
served_stream w es dt r u l h =
    let f = serve_all-Fed w es dt r u l in
    let d = w.down_tracks dt in
    (
      f.given,
      f.picks,
      f.stream.packets,
      steps-rewrite_all d.sequencer f.given d.sender_ssrc (All-Picks f.picks h),
    )
