-- ===== src/Store/Rooms.antt =====
-- pkg/sfu/session.go, pkg/sfu/sfu.go and pkg/sfu/downtrack.go: what an operation leaves alone in the sessions, the peers
-- and the streams of the downtracks.
use mathlib.Core.List.{append-nil, append_assoc}
use choice.Base.{
  if◌then◌else◌, ◌==◌, nat_eq, string_eq, Bool-cases, keep, ℕ, ◌≤◌, ◌<◌, ◌≡◌, refl, sym, ap, ◌∙◌,
  subst, inl, inr, Bool, true, false, List, [], ◌∷◌, ◌++◌, arith, NoRepeat,
}
use choice.Rtp.{Packet}
use choice.Store.{
  Store, Forwarder, Effect, pli, rtp, notify, data_message, close_pc, close_conn, update, note,
}

-- The tables of the sessions and of the peers are the same, and no address in use is given out again.
pub record SameRooms (w w' : Store) : Type 0 where
  pub session_table : w'.session_table ≡ w.session_table
  pub sessions : w'.sessions ≡ w.sessions
  pub peers : w'.peers ≡ w.peers
  pub next : w.next ≤ w'.next

pub SameRooms-trans : {a b c : Store} → SameRooms a b → SameRooms b c → SameRooms a c
SameRooms-trans p q = record {
  session_table = q.session_table ∙ p.session_table;
  sessions = q.sessions ∙ p.sessions;
  peers = q.peers ∙ p.peers;
  next = omega (arith, p.next, q.next);
}

pub SameRooms-refl : (w : Store) → SameRooms w w
SameRooms-refl w = record {
  session_table = refl;
  sessions = refl;
  peers = refl;
  next = omega arith;
}

-- The packet that an effect hands to the local track of a downtrack.
unfoldable pub packet_to : ℕ → Effect → List Packet
packet_to dt (pli pc ssrc) = []
packet_to dt (rtp d packet) = if d == dt then packet ∷ [] else []
packet_to dt (notify conn n) = []
packet_to dt (data_message c m) = []
packet_to dt (close_pc pc) = []
packet_to dt (close_conn c) = []

-- The packets that a downtrack has sent.
unfoldable pub packets_to : ℕ → List Effect → List Packet
unfolding packet_to
packets_to dt [] = []
packets_to dt (e ∷ es) = packet_to dt e ++ packets_to dt es

pub packets_to-append :
    (dt : ℕ) (a b : List Effect) → packets_to dt (a ++ b) ≡ packets_to dt a ++ packets_to dt b
unfolding packets_to
packets_to-append dt [] b = refl
packets_to-append dt (e ∷ es) b =
    ap (λ l. packet_to dt e ++ l) (packets_to-append dt es b)
    ∙ sym (append_assoc (packet_to dt e) (packets_to dt es) (packets_to dt b))

-- The set of each forwarder goes on holding no downtrack twice.
abbrev pub Sets : Store → Store → Type 0
Sets w w' =
    ((f : ℕ) → NoRepeat (w.forwarders f).down_tracks)
    → (f : ℕ) → NoRepeat (w'.forwarders f).down_tracks

-- No downtrack in use sends anything, and their sequencers stay as they are.
abbrev pub Silent : Store → Store → Type 0
Silent w w' =
    ((dt : ℕ)
      → dt < w.next
      → ((w'.down_tracks dt).sequencer ≡ (w.down_tracks dt).sequencer)
        × ((w'.down_tracks dt).sender_ssrc ≡ (w.down_tracks dt).sender_ssrc)
        × (packets_to dt w'.log ≡ packets_to dt w.log))
    × Sets w w'

pub Silent-trans : (a b c : Store) → a.next ≤ b.next → Silent a b → Silent b c → Silent a c
Silent-trans a b c n (p, s) (q, t) = (
  λ dt l.
      let (x, y, z) = p dt l in
      let (x', y', z') = q dt (omega (arith, l, n)) in (x' ∙ x, y' ∙ y, z' ∙ z),
  λ h. t (s h),
)

pub Silent-refl : (w : Store) → Silent w w
Silent-refl w = (λ dt l. (refl, refl, refl), λ h. h)

same-Sets : (w w' : Store) → w'.forwarders ≡ w.forwarders → Sets w w'
same-Sets w w' e h f = subst (λ g. NoRepeat (g f).down_tracks) (sym e) (h f)

-- The rooms are the same, and no downtrack sends.
pub record Quiet (w w' : Store) : Type 0 where
  pub session_table : w'.session_table ≡ w.session_table
  pub sessions : w'.sessions ≡ w.sessions
  pub peers : w'.peers ≡ w.peers
  pub next : w.next ≤ w'.next
  pub silent : Silent w w'

pub Quiet-trans : {a b c : Store} → Quiet a b → Quiet b c → Quiet a c
Quiet-trans {a} {b} {c} p q = record {
  session_table = q.session_table ∙ p.session_table;
  sessions = q.sessions ∙ p.sessions;
  peers = q.peers ∙ p.peers;
  next = omega (arith, p.next, q.next);
  silent = Silent-trans a b c p.next p.silent q.silent;
}

pub Quiet-refl : (w : Store) → Quiet w w
Quiet-refl w = record {
  session_table = refl;
  sessions = refl;
  peers = refl;
  next = omega arith;
  silent = Silent-refl w;
}

pub Quiet-SameRooms : {w w' : Store} → Quiet w w' → SameRooms w w'
Quiet-SameRooms h = record {
  session_table = h.session_table;
  sessions = h.sessions;
  peers = h.peers;
  next = h.next;
}

-- Either branch.
pub either-Quiet : {w a b : Store} (c : Bool) → Quiet w a → Quiet w b → Quiet w (if c then a else b)
either-Quiet true x y = x
either-Quiet false x y = y

-- A change of other tables.
pub keeps :
    {w w' : Store}
    → w'.session_table ≡ w.session_table
    → w'.sessions ≡ w.sessions
    → w'.peers ≡ w.peers
    → w'.next ≡ w.next
    → w'.down_tracks ≡ w.down_tracks
    → w'.log ≡ w.log
    → w'.forwarders ≡ w.forwarders
    → Quiet w w'
keeps {w} {w'} a b c n d l f = record {
  session_table = a;
  sessions = b;
  peers = c;
  next = omega (arith, n);
  silent = (
    λ dt u. (ap (λ g. (g dt).sequencer) d, ap (λ g. (g dt).sender_ssrc) d, ap (packets_to dt) l),
    same-Sets w w' f,
  );
}

-- Such a change, and then a quiet operation.
pub keeps_then :
    {w w₁ w' : Store}
    → Quiet w₁ w'
    → w₁.session_table ≡ w.session_table
    → w₁.sessions ≡ w.sessions
    → w₁.peers ≡ w.peers
    → w₁.next ≡ w.next
    → w₁.down_tracks ≡ w.down_tracks
    → w₁.log ≡ w.log
    → w₁.forwarders ≡ w.forwarders
    → Quiet w w'
keeps_then h a b c n d l f = Quiet-trans (keeps a b c n d l f) h

-- An effect that hands no packet to a downtrack.
pub note-Quiet : (w : Store) (e : Effect) → ((dt : ℕ) → packet_to dt e ≡ []) → Quiet w (note w e)
unfolding packets_to
note-Quiet w e h = record {
  session_table = refl;
  sessions = refl;
  peers = refl;
  next = omega arith;
  silent = (
    λ dt l. (
      refl,
      refl,
      packets_to-append dt w.log (e ∷ [])
          ∙ ap (λ l. packets_to dt w.log ++ (l ++ [])) (h dt)
          ∙ append-nil (packets_to dt w.log),
    ),
    λ h. h,
  );
}

-- New objects, and a change of other tables.
pub grows :
    {w w' : Store}
    → w'.session_table ≡ w.session_table
    → w'.sessions ≡ w.sessions
    → w'.peers ≡ w.peers
    → w.next ≤ w'.next
    → ((dt : ℕ) → dt < w.next → w'.down_tracks dt ≡ w.down_tracks dt)
    → w'.log ≡ w.log
    → w'.forwarders ≡ w.forwarders
    → Quiet w w'
grows {w} {w'} a b c n d l f = record {
  session_table = a;
  sessions = b;
  peers = c;
  next = n;
  silent = (
    λ dt u.
        (ap (λ g. g.sequencer) (d dt u), ap (λ g. g.sender_ssrc) (d dt u), ap (packets_to dt) l),
    same-Sets w w' f,
  );
}

-- A change of one forwarder.
pub set_forwarder-Quiet :
    (w : Store) (f : ℕ) (fwd : Forwarder)
    → (NoRepeat (w.forwarders f).down_tracks → NoRepeat fwd.down_tracks)
    → Quiet w (record w { forwarders = update w.forwarders f fwd })
set_forwarder-Quiet w f fwd keep = record {
  session_table = refl;
  sessions = refl;
  peers = refl;
  next = omega arith;
  silent = (
    λ dt l. (refl, refl, refl),
    λ h k. elim (Bool-cases (f == k)) [ inl y ↦ rw y (keep (h f)) | inr n ↦ rw n (h k) ],
  );
}
