-- ===== src/Transport.antt =====
-- pkg/sfu/transport.go: `wsConn`, whose writes are serialised by a mutex. The goroutines that write to it run in
-- any order; between two steps of one of them the others may run. What github.com/gorilla/websocket puts on the
-- network for a message is a parameter: the pieces of the message, one after another until the end or an error.
pub mod Mutex
pub mod Serial
use choice.Base.{
  if◌then◌else◌, nat_eq, string_eq, ℕ, String, Bool, true, false, Option, none, some, List, [], ◌∷◌,
  ◌++◌,
}
use choice.Store.{update}

-- Where a goroutine stands in `WriteMessage`.
pub data Phase {ℓ κ} (M : Type ℓ) (P : Type κ) : Type (ℓ ⊔ κ) where
  idle : Phase M P
  waiting : M → Phase M P  -- before the mutex is locked
  writing : M → List P → List P → Phase M P  -- inside `conn.WriteMessage`: the pieces written, and the rest
  leaving : Option String → Phase M P  -- before the deferred unlock, with the error that is returned

pub record WsConn {ℓ κ} (M : Type ℓ) (P : Type κ) : Type (ℓ ⊔ κ) where
  pub locked : Bool  -- `mu`
  pub wire : List P  -- what `conn` has put on the network
  pub phase : ℕ → Phase M P  -- by goroutine

-- A write that has ended: what was put on the network for the message, and the error.
pub record Write {ℓ κ} (M : Type ℓ) (P : Type κ) : Type (ℓ ⊔ κ) where
  pub message : M
  pub written : List P
  pub error : Option String

-- How a goroutine goes on: it calls `WriteMessage`, takes its next step, or the connection returns an error.
pub data Turn {ℓ} (M : Type ℓ) : Type ℓ where
  call : M → Turn M
  go : Turn M
  fail : String → Turn M

unfoldable pub new_ws_conn {ℓ κ} : {M : Type ℓ} {P : Type κ} → WsConn M P
new_ws_conn = record { locked = false; wire = []; phase = λ i. idle }

module _ {ℓ κ} {M : Type ℓ} {P : Type κ} (pieces : M → List P) where
  -- The next step of a goroutine at a phase, and the write that ends with it. A goroutine that finds the mutex
  -- locked stays where it is.
  unfoldable pub advance : WsConn M P → ℕ → Phase M P → Turn M → WsConn M P × List (Write M P)
  advance s i idle (call m) = (record s { phase = update s.phase i (waiting m) }, [])
  advance s i (waiting m) go =
      if s.locked
      then (s, [])
      else (record s { locked = true; phase = update s.phase i (writing m [] (pieces m)) }, [])
  advance s i (writing m front (x ∷ back)) go = (
    record s {
      wire = s.wire ++ x ∷ [];
      phase = update s.phase i (writing m (front ++ x ∷ []) back);
    },
    [],
  )
  advance s i (writing m front []) go = (
    record s { phase = update s.phase i (leaving none) },
    record { message = m; written = front; error = none } ∷ [],
  )
  advance s i (writing m front back) (fail e) = (
    record s { phase = update s.phase i (leaving (some e)) },
    record { message = m; written = front; error = some e } ∷ [],
  )
  advance s i (leaving result) go = (record s { locked = false; phase = update s.phase i idle }, [])
  advance s i _ _ = (s, [])

  unfoldable pub write_message : WsConn M P → ℕ → Turn M → WsConn M P × List (Write M P)
  unfolding advance
  write_message s i turn = advance s i (s.phase i) turn

  -- The goroutines in some order, with the writes that end, in the order in which they end.
  unfoldable pub interleave : WsConn M P → List (ℕ × Turn M) → WsConn M P × List (Write M P)
  unfolding write_message
  interleave s [] = (s, [])
  interleave s ((i, turn) ∷ turns) =
      let (s₁, first) = write_message s i turn in
      let (s₂, rest) = interleave s₁ turns in (s₂, first ++ rest)
