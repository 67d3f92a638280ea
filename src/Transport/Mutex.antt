-- ===== src/Transport/Mutex.antt =====
-- pkg/sfu/transport.go: who has the mutex of a `wsConn`, and what its steps change.
use mathlib.Core.List.{append-nil, append_assoc}
use choice.Base.{
  ◌==◌, nat_eq, string_eq, beq_self, Bool-cases, All, All-append, ℕ, String, ◌≡◌, refl, sym, ap,
  ◌∙◌, subst, inl, inr, Bool, true, false, Option, none, some, List, [], ◌∷◌, ◌++◌, arith,
}
use native.Mathlib.Decide.{ℕ_discrete as dec_eq}
use choice.Store.{update}
use choice.Transport.{Phase, idle, waiting, writing, leaving, WsConn, Write}

-- The goroutine has the mutex.
abbrev pub holds {ℓ κ} : {M : Type ℓ} {P : Type κ} → Phase M P → Bool
holds idle = false
holds (waiting m) = false
holds (writing m front back) = true
holds (leaving result) = true

-- What it has put on the network in the write under way.
abbrev pub front_of {ℓ κ} : {M : Type ℓ} {P : Type κ} → Phase M P → List P
front_of idle = []
front_of (waiting m) = []
front_of (writing m front back) = front
front_of (leaving result) = []

abbrev pub owns : Option ℕ → ℕ → Bool
owns none j = false
owns (some i) j = i == j

abbrev pub is_owned : Option ℕ → Bool
is_owned none = false
is_owned (some i) = true

abbrev pub in_flight {ℓ κ} : {M : Type ℓ} {P : Type κ} → (ℕ → Phase M P) → Option ℕ → List P
in_flight phase none = []
in_flight phase (some i) = front_of (phase i)

-- What the writes have put on the network, one after another.
unfoldable pub parts {ℓ κ} : {M : Type ℓ} {P : Type κ} → List (Write M P) → List P
parts [] = []
parts (w ∷ ws) = w.written ++ parts ws

parts-append {ℓ κ} :
    {M : Type ℓ} {P : Type κ} (xs ys : List (Write M P)) → parts (xs ++ ys) ≡ parts xs ++ parts ys
unfolding parts
parts-append [] ys = refl
parts-append (x ∷ xs) ys =
    ap (λ l. x.written ++ l) (parts-append xs ys)
    ∙ sym (append_assoc x.written (parts xs) (parts ys))

sent_parts {ℓ κ} :
    {M : Type ℓ} {P : Type κ} (sent : List (Write M P)) (m : M) (front : List P) (r : Option String)
    → parts (sent ++ record { message = m; written = front; error = r } ∷ []) ++ []
      ≡ parts sent ++ front
unfolding parts
sent_parts sent m front r =
    append-nil _ ∙ parts-append sent _ ∙ ap (λ l. parts sent ++ l) (append-nil front)

module _ {ℓ κ} {M : Type ℓ} {P : Type κ} (pieces : M → List P) where
  -- A write puts a first part of its message on the network, and the whole message if it returns no error.
  abbrev pub IsSound : Write M P → Type κ
  IsSound w =
      (rest : List P) × (w.written ++ rest ≡ pieces w.message)
      × (w.error ≡ none → w.written ≡ pieces w.message)

  abbrev pub IsFitting : Phase M P → Type κ
  IsFitting idle = Unit
  IsFitting (waiting m) = Unit
  IsFitting (writing m front back) = front ++ back ≡ pieces m
  IsFitting (leaving result) = Unit

  pub record Inv (s : WsConn M P) (sent : List (Write M P)) (owner : Option ℕ) : Type (ℓ ⊔ κ) where
    pub locked : s.locked ≡ is_owned owner
    pub owned : (i : ℕ) → holds (s.phase i) ≡ owns owner i
    pub fits : (i : ℕ) → IsFitting (s.phase i)
    pub wire : s.wire ≡ parts sent ++ in_flight s.phase owner
    pub sound : All IsSound sent

  abbrev pub Serial : WsConn M P → List (Write M P) → Type (ℓ ⊔ κ)
  Serial s sent = (owner : Option ℕ) × Inv s sent owner

  put :
      (phase : ℕ → Phase M P) (i : ℕ) (φ : Phase M P)
      → ((j : ℕ) → IsFitting (phase j))
      → IsFitting φ
      → (j : ℕ) → IsFitting (update phase i φ j)
  put phase i φ h x j = elim (Bool-cases (i == j)) [ inl e ↦ rw e x | inr e ↦ rw e (h j) ]

  holds-update :
      (phase : ℕ → Phase M P) (i : ℕ) (φ : Phase M P)
      → holds φ ≡ holds (phase i)
      → (j : ℕ) → holds (update phase i φ j) ≡ holds (phase j)
  holds-update phase i φ e j = elim (dec_eq i j) [
    | yes h ↦ rw (sym h) (rw (beq_self i) e)
    | no n ↦ ground (arith, n)
  ]

  -- The phase of another goroutine than the owner of the mutex is not in flight.
  in_flight-update :
      (phase : ℕ → Phase M P) (owner : Option ℕ) (i : ℕ) (φ : Phase M P)
      → owns owner i ≡ false
      → in_flight (update phase i φ) owner ≡ in_flight phase owner
  in_flight-update phase none i φ h = refl
  in_flight-update phase (some k) i φ h = ground (arith, h)

  -- A goroutine without the mutex goes on without it.
  pub waits :
      (s : WsConn M P) (sent : List (Write M P)) (owner : Option ℕ) (i : ℕ) (φ : Phase M P)
      → Inv s sent owner
      → holds (s.phase i) ≡ false
      → holds φ ≡ false
      → IsFitting φ
      → Inv (record s { phase = update s.phase i φ }) sent owner
  waits s sent owner i φ h out out' fits = record {
    locked = h.locked;
    owned = λ j. holds-update s.phase i φ (out' ∙ sym out) j ∙ h.owned j;
    fits = put s.phase i φ h.fits fits;
    wire =
        h.wire
        ∙ ap (λ l. parts sent ++ l)
            (sym (in_flight-update s.phase owner i φ (sym (h.owned i) ∙ out)));
    sound = h.sound;
  }

  pub at_own : (phase : ℕ → Phase M P) (i : ℕ) (φ : Phase M P) → update phase i φ i ≡ φ
  at_own phase i φ = rw (beq_self i) refl

  -- A goroutine takes the mutex.
  pub takes :
      (s : WsConn M P) (sent : List (Write M P)) (i : ℕ) (m : M)
      → Inv s sent none
      → Inv
          (record s { locked = true; phase = update s.phase i (writing m [] (pieces m)) })
          sent
          (some i)
  takes s sent i m h = record {
    locked = refl;
    owned = λ j. ground (arith, h.owned j);
    fits = put s.phase i _ h.fits refl;
    wire = h.wire ∙ ap (λ l. parts sent ++ l) (ap front_of (sym (at_own s.phase i _)));
    sound = h.sound;
  }

  -- The owner of the mutex writes a piece.
  pub writes :
      (s : WsConn M P) (sent : List (Write M P)) (i : ℕ) (m : M) (x : P) (front back : List P)
      → Inv s sent (some i)
      → s.phase i ≡ writing m front (x ∷ back)
      → Inv
          (record s {
            wire = s.wire ++ x ∷ [];
            phase = update s.phase i (writing m (front ++ x ∷ []) back);
          })
          sent
          (some i)
  writes s sent i m x front back h e = record {
    locked = h.locked;
    owned = λ j. holds-update s.phase i _ (sym (ap holds e)) j ∙ h.owned j;
    fits = put s.phase i _ h.fits (append_assoc front (x ∷ []) back ∙ subst IsFitting e (h.fits i));
    wire =
        ap (λ l. l ++ x ∷ []) (h.wire ∙ ap (λ p. parts sent ++ front_of p) e)
        ∙ append_assoc (parts sent) front (x ∷ [])
        ∙ ap (λ l. parts sent ++ l) (ap front_of (sym (at_own s.phase i _)));
    sound = h.sound;
  }

  -- The write of the owner of the mutex ends.
  pub ends :
      (s : WsConn M P) (sent : List (Write M P)) (i : ℕ) (m : M) (front back : List P)
      (r : Option String)
      → Inv s sent (some i)
      → s.phase i ≡ writing m front back
      → (r ≡ none → back ≡ [])
      → Inv
          (record s { phase = update s.phase i (leaving r) })
          (sent ++ record { message = m; written = front; error = r } ∷ [])
          (some i)
  ends s sent i m front back r h e whole = record {
    locked = h.locked;
    owned = λ j. holds-update s.phase i _ (sym (ap holds e)) j ∙ h.owned j;
    fits = put s.phase i _ h.fits tt;
    wire =
        h.wire
        ∙ ap (λ p. parts sent ++ front_of p) e
        ∙ sym (sent_parts sent m front r)
        ∙ ap (λ l. parts (sent ++ record { message = m; written = front; error = r } ∷ []) ++ l)
            (ap front_of (sym (at_own s.phase i _)));
    sound =
        All-append IsSound sent (record { message = m; written = front; error = r } ∷ []) h.sound (
          (
            back,
            subst IsFitting e (h.fits i),
            λ n.
                sym (append-nil front)
                ∙ ap (λ l. front ++ l) (sym (whole n))
                ∙ subst IsFitting e (h.fits i),
          ),
          tt,
        );
  }

  -- The owner of the mutex gives it back.
  pub leaves :
      (s : WsConn M P) (sent : List (Write M P)) (i : ℕ) (r : Option String)
      → Inv s sent (some i)
      → s.phase i ≡ leaving r
      → Inv (record s { locked = false; phase = update s.phase i idle }) sent none
  leaves s sent i r h e = record {
    locked = refl;
    owned = λ j. ground (arith, h.owned j);
    fits = put s.phase i _ h.fits tt;
    wire = h.wire ∙ ap (λ p. parts sent ++ front_of p) e;
    sound = h.sound;
  }
