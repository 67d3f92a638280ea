-- ===== src/Examples/Wire.antt =====
-- Two goroutines that write to one WebSocket.
use choice.Base.{nat_eq, string_eq, ℕ, ◌≡◌, refl, true, List, [], ◌∷◌}
use choice.Transport.{Turn, call, go, new_ws_conn, advance, write_message, interleave}
use choice.Transport.Serial.{IsSerial, interleave-IsSerial}

-- A message is its bytes.
abbrev bytes : List ℕ → List ℕ
bytes m = m

-- The second goroutine calls while the first one writes, and gets the mutex after it.
abbrev overlapping : List (ℕ × Turn (List ℕ))
overlapping =
    (0, call (1 ∷ 2 ∷ []))
    ∷ (0, go)
    ∷ (1, call (3 ∷ []))
    ∷ (0, go)
    ∷ (1, go)
    ∷ (0, go)
    ∷ (0, go)
    ∷ (1, go)
    ∷ (0, go)
    ∷ (1, go)
    ∷ (1, go)
    ∷ []

overlapping-wire : (interleave bytes new_ws_conn overlapping).0.wire ≡ 1 ∷ 2 ∷ 3 ∷ []
unfolding interleave write_message advance new_ws_conn
overlapping-wire = refl

overlapping-locked : (interleave bytes new_ws_conn overlapping).0.locked ≡ true
unfolding interleave write_message advance new_ws_conn
overlapping-locked = refl

interleave-IsSerial_example :
    IsSerial bytes
      (interleave bytes new_ws_conn overlapping).0
      (interleave bytes new_ws_conn overlapping).1
interleave-IsSerial_example = interleave-IsSerial bytes overlapping
