-- ===== src/Examples/Served.antt =====
-- The theorems on the whole server, in the room of World.
use choice.Base.{
  nat_eq, string_eq, beq→eq, lookup, contains, ◌≡◌, refl, inr, none, some, List, [], ◌∷◌, arith,
}
use choice.Layer.{low}
use choice.Rtp.{Packet}
use choice.Rtp.Sequencer.Continuity.{rewrite_all, steps, source_steps}
use choice.Rpc.{Decode}
use choice.Store.{Env}
use choice.Store.Rooms.{packets_to}
use choice.Roster.{roster, leave, stay, ◌≈◌, Rooms}
use choice.Roster.Requests.{change_of_leave}
use choice.Roster.Handling.{change_of_request, change_of_message}
use choice.Server.{Event, message, reading, serve_all}
use choice.Server.Streams.{Picks}
use choice.Server.Feeding.{brought, arrivals_of}
use choice.Server.Rooms.{change_of, changes, replay, serve_all-refines, serve_all-Rooms}
use choice.Server.Continuity.{arrivals, served_stream}
use choice.Examples.World.{granting, world, down_track}

world-Rooms : Rooms world
unfolding lookup
world-Rooms = record {
  used = λ id s e. ground (arith, e);
  id = λ id s e. ground (arith, e, beq→eq "room" id);
  peers = λ id s q p e f. record {
    used = ground (arith, e, f);
    id = ground (arith, e, f, beq→eq "ann" q, beq→eq "bob" q);
    session = ground (arith, e);
    open_ = refl;
  };
}

-- A decoder that reads every message as bob's leave.
abbrev leaving : Decode
leaving = record {
  request = λ _. some (record { id = "1"; method = "leave"; params = "{}" });
  join = λ _. none;
  subscribe = λ _. none;
  candidate = λ _. none;
  answer = λ _. none;
  leave = λ _. some (record { session_id = "room"; peer_id = "bob" });
  set_layer = λ _. none;
  get_layer = λ _. none;
}

abbrev packet : Packet
packet = record {
  sequence_number = 65_535;
  timestamp = 4_000;
  ssrc = 11;
  payload = 16 ∷ [];
  rest = [];
}

-- A packet of ann's camera is read, and bob leaves.
abbrev events : List (Env × Event)
events =
    (granting, reading 5 1 low 1 (record { deadline = none; read = inr packet }))
    ∷ (granting, message 7 leaving "leave")
    ∷ []

served_stream_example :
    (given : List Packet) × Picks (packet ∷ []) given
    × (packets_to 4 (serve_all world events).log ≡ rewrite_all down_track.sequencer given 99)
    × (steps (rewrite_all down_track.sequencer given 99) ≡ source_steps given)
unfolding arrivals arrivals_of brought contains packets_to rewrite_all
served_stream_example =
    served_stream world events 4 world-Rooms (λ f. (refl, (refl, tt))) (omega arith)
      (record { seq = omega arith; ts = omega arith }, tt)

serve_all-refines_example :
    roster (serve_all world events) ≈ replay (stay ∷ leave "room" "bob" ∷ []) (roster world)
unfolding changes change_of change_of_message change_of_request change_of_leave
serve_all-refines_example = serve_all-refines world events world-Rooms

serve_all-Rooms_example : Rooms (serve_all world events)
serve_all-Rooms_example = serve_all-Rooms world events world-Rooms
