-- ===== src/Transport/Serial.antt =====
-- pkg/sfu/transport.go: the writes of `wsConn` do not overlap.
use mathlib.Core.List.{append-nil, append_assoc}
use choice.Base.{
  on_if, nat_eq, string_eq, beq_self, beq→eq, All, ℕ, zero, suc, ◌≡◌, refl, sym, ap, ◌∙◌, subst,
  true, false, Option, none, some, List, [], ◌∷◌, ◌++◌, arith,
}
use choice.Store.{update}
use choice.Transport.{
  Phase, idle, waiting, writing, leaving, WsConn, Write, Turn, call, go, fail, new_ws_conn, advance,
  write_message, interleave,
}
use choice.Transport.Mutex.{
  IsSound, Inv, Serial, waits, takes, writes, ends, leaves, at_own, holds, front_of, parts,
}

-- One goroutine goes on alone.
abbrev pub alone {ℓ} : {M : Type ℓ} → ℕ → ℕ → List (ℕ × Turn M)
alone i zero = []
alone i (suc n) = (i, go) ∷ alone i n

module _ {ℓ κ} {M : Type ℓ} {P : Type κ} (pieces : M → List P) where
  -- Who has the mutex is its owner, and nobody owns a mutex that is not locked.
  mine :
      (s : WsConn M P) (sent : List (Write M P)) (o : Option ℕ) (i : ℕ)
      → Inv pieces s sent o
      → holds (s.phase i) ≡ true
      → Inv pieces s sent (some i)
  mine s sent none i h e = absurd (ground (arith, e, h.owned i))
  mine s sent (some k) i h e =
      subst (λ j. Inv pieces s sent (some j)) (beq→eq k i (sym (h.owned i) ∙ e)) h

  nobody :
      (s : WsConn M P) (sent : List (Write M P)) (o : Option ℕ)
      → Inv pieces s sent o
      → s.locked ≡ false
      → Inv pieces s sent none
  nobody s sent none h e = h
  nobody s sent (some k) h e = absurd (ground (arith, e, h.locked))

  silent :
      (s : WsConn M P) (sent : List (Write M P))
      → Serial pieces s sent
      → Serial pieces s (sent ++ [])
  silent s sent = subst (Serial pieces s) (sym (append-nil sent))

  advance-Serial :
      (s : WsConn M P) (sent : List (Write M P)) (i : ℕ) (φ : Phase M P) (turn : Turn M)
      → s.phase i ≡ φ
      → Serial pieces s sent
      → let (s', ended) = advance pieces s i φ turn in Serial pieces s' (sent ++ ended)
  unfolding advance
  advance-Serial s sent i idle (call m) e (o, h) =
      silent _ sent (o, waits pieces s sent o i (waiting m) h (ap holds e) refl tt)
  advance-Serial s sent i (waiting m) go e (o, h) =
      on_if (λ (r : WsConn M P × List (Write M P)). Serial pieces r.0 (sent ++ r.1)) s.locked
        (λ y. silent s sent (o, h))
        (λ y. silent _ sent (some i, takes pieces s sent i m (nobody s sent o h y)))
  advance-Serial s sent i (writing m front (x ∷ back)) go e (o, h) =
      silent _ sent
        (some i, writes pieces s sent i m x front back (mine s sent o i h (ap holds e)) e)
  advance-Serial s sent i (writing m front []) go e (o, h) =
      (some i, ends pieces s sent i m front [] none (mine s sent o i h (ap holds e)) e (λ n. refl))
  advance-Serial s sent i (writing m front back) (fail err) e (o, h) = (
    some i,
    ends pieces s sent i m front back (some err) (mine s sent o i h (ap holds e)) e
        (λ n. ground arith),
  )
  advance-Serial s sent i (leaving r) go e (o, h) =
      silent _ sent (none, leaves pieces s sent i r (mine s sent o i h (ap holds e)) e)
  advance-Serial s sent i φ turn e x = silent s sent x

  interleave-Serial :
      (s : WsConn M P) (sent : List (Write M P)) (turns : List (ℕ × Turn M))
      → Serial pieces s sent
      → let (s', ended) = interleave pieces s turns in Serial pieces s' (sent ++ ended)
  unfolding interleave write_message
  interleave-Serial s sent [] h = silent s sent h
  interleave-Serial s sent ((i, turn) ∷ turns) h =
      let (s₁, first) = advance pieces s i (s.phase i) turn in
      let (s₂, rest) = interleave pieces s₁ turns in
      subst (Serial pieces s₂) (append_assoc sent first rest) (
        interleave-Serial s₁ (sent ++ first) turns
          (advance-Serial s sent i (s.phase i) turn refl h))

  new-Serial : Serial pieces new_ws_conn []
  unfolding new_ws_conn parts
  new-Serial =
      (none, record { locked = refl; owned = λ i. refl; fits = λ i. tt; wire = refl; sound = tt })

  -- Whoever has the mutex gives it back after the pieces left to write and two more steps.
  frees :
      (s : WsConn M P) (i : ℕ) (φ : Phase M P)
      → s.phase i ≡ φ
      → holds φ ≡ true
      → (n : ℕ) × ((interleave pieces s (alone i n)).0.locked ≡ false)
  unfolding interleave write_message
  frees s i idle e h = absurd (ground (arith, h))
  frees s i (waiting m) e h = absurd (ground (arith, h))
  frees s i (leaving r) e h = (1, ap (λ φ. (advance pieces s i φ go).0.locked) e)
  frees s i (writing m front []) e h = (
    2,
    ap (λ φ. (write_message pieces (advance pieces s i φ go).0 i go).0.locked) e
        ∙ ap
            (λ φ.
              (advance pieces (record s { phase = update s.phase i (leaving none) }) i φ
                go).0.locked)
            (at_own pieces s.phase i (leaving none)),
  )
  frees s i (writing m front (x ∷ back)) e h =
      let s' : WsConn M P = record s {
        wire = s.wire ++ x ∷ [];
        phase = update s.phase i (writing m (front ++ x ∷ []) back);
      } in
      let (n, free) =
        frees s' i (writing m (front ++ x ∷ []) back) (at_own pieces s.phase i _) refl in
      (
        suc n,
        ap (λ φ. (interleave pieces (advance pieces s i φ go).0 (alone i n)).0.locked) e ∙ free,
      )

  freed :
      (s : WsConn M P) (sent : List (Write M P)) (o : Option ℕ)
      → Inv pieces s sent o
      → (i n : ℕ) × ((interleave pieces s (alone i n)).0.locked ≡ false)
  unfolding interleave
  freed s sent none h = (0, 0, h.locked)
  freed s sent (some i) h =
      let (n, free) = frees s i (s.phase i) refl (h.owned i ∙ beq_self i) in (i, n, free)

-- What the goroutines that write to a connection leave behind.
pub record IsSerial {ℓ κ} {M : Type ℓ} {P : Type κ} (pieces : M → List P) (s : WsConn M P)
    (sent : List (Write M P)) : Type (ℓ ⊔ κ) where
  pub one : (i j : ℕ) → holds (s.phase i) ≡ true → holds (s.phase j) ≡ true → i ≡ j
  pub quiet : s.locked ≡ false → s.wire ≡ parts sent
  pub under_way :
      (i : ℕ) (m : M) (front back : List P)
      → s.phase i ≡ writing m front back
      → s.wire ≡ parts sent ++ front
  pub sound : All (IsSound pieces) sent
  pub freed : (i n : ℕ) × ((interleave pieces s (alone i n)).0.locked ≡ false)

-- In every interleaving of the goroutines that write to a new connection, at most one has its mutex, and some
-- steps of one goroutine alone, without an error of the connection, leave it free; the network has what the
-- writes that have ended put there, one after another in that order, and then the pieces of the write under way,
-- if there is one; and a write that has ended put a first part of its message there, or the whole message if it
-- returned no error.
pub interleave-IsSerial {ℓ κ} :
    {M : Type ℓ} {P : Type κ} (pieces : M → List P) (turns : List (ℕ × Turn M))
    → let (s, sent) = interleave pieces new_ws_conn turns in IsSerial pieces s sent
interleave-IsSerial pieces turns =
    let (s, sent) = interleave pieces new_ws_conn turns in
    let (o, h) = interleave-Serial pieces new_ws_conn [] turns (new-Serial pieces) in
    let own : (i : ℕ) → holds (s.phase i) ≡ true → Inv pieces s sent (some i) =
      λ i e. mine pieces s sent o i h e in
    record {
      one = λ i j x y. beq→eq i j (sym ((own i x).owned j) ∙ y);
      quiet = λ e. (nobody pieces s sent o h e).wire ∙ append-nil (parts sent);
      under_way =
          λ i m front back e. (own i (ap holds e)).wire ∙ ap (λ p. parts sent ++ front_of p) e;
      sound = h.sound;
      freed = freed pieces s sent o h;
    }
