-- ===== src/Server/Streams.antt =====
-- pkg/sfu/downtrack.go and pkg/sfu/forwarder.go: what the stream of one downtrack is given by a packet that a router
-- forwards.
use mathlib.Core.List.{append-nil, append_assoc}
use choice.Base.{
  nat_eq, string_eq, ℕ, ◌≤◌, ◌<◌, ◌≡◌, refl, sym, ap, ◌∙◌, List, [], ◌∷◌, ◌++◌, arith,
}
use choice.Rtp.{Packet, RtpSequencer, rewrite}
use choice.Rtp.Sequencer.Continuity.{rewrite_all}
use choice.Store.{Store}
use choice.Store.Rooms.{Silent, packets_to}

-- The sequencer after a call of `Rewrite` for each packet.
unfoldable pub sequencer_after : RtpSequencer → List Packet → ℕ → RtpSequencer
sequencer_after s [] ssrc = s
sequencer_after s (p ∷ ps) ssrc = sequencer_after (rewrite s p ssrc).0 ps ssrc

sequencer_after-append :
    (s : RtpSequencer) (a b : List Packet) (ssrc : ℕ)
    → sequencer_after s (a ++ b) ssrc ≡ sequencer_after (sequencer_after s a ssrc) b ssrc
unfolding sequencer_after
sequencer_after-append s [] b ssrc = refl
sequencer_after-append s (p ∷ a) b ssrc = sequencer_after-append (rewrite s p ssrc).0 a b ssrc

rewrite_all-append :
    (s : RtpSequencer) (a b : List Packet) (ssrc : ℕ)
    → rewrite_all s (a ++ b) ssrc
      ≡ rewrite_all s a ssrc ++ rewrite_all (sequencer_after s a ssrc) b ssrc
unfolding sequencer_after rewrite_all
rewrite_all-append s [] b ssrc = refl
rewrite_all-append s (p ∷ a) b ssrc =
    let (s', out) = rewrite s p ssrc in ap (λ l. out ∷ l) (rewrite_all-append s' a b ssrc)

-- The downtrack has rewritten the given packets, in order, and has sent nothing else.
pub record Stream (w w' : Store) (dt : ℕ) (given : List Packet) : Type 0 where
  pub next : w.next ≤ w'.next
  pub ssrc : (w'.down_tracks dt).sender_ssrc ≡ (w.down_tracks dt).sender_ssrc
  pub sequencer :
      (w'.down_tracks dt).sequencer
      ≡ sequencer_after (w.down_tracks dt).sequencer given (w.down_tracks dt).sender_ssrc
  pub packets :
      packets_to dt w'.log
      ≡ packets_to dt w.log
        ++ rewrite_all (w.down_tracks dt).sequencer given (w.down_tracks dt).sender_ssrc

pub Stream-trans :
    {a b c : Store} {dt : ℕ} {xs ys : List Packet}
    → Stream a b dt xs
    → Stream b c dt ys
    → Stream a c dt (xs ++ ys)
Stream-trans {a} {b} {c} {dt} {xs} {ys} p q =
    let s = (a.down_tracks dt).sequencer in
    let n = (a.down_tracks dt).sender_ssrc in
    record {
      next = omega (arith, p.next, q.next);
      ssrc = q.ssrc ∙ p.ssrc;
      sequencer =
          q.sequencer
          ∙ (λ i. sequencer_after (p.sequencer i) ys (p.ssrc i))
          ∙ sym (sequencer_after-append s xs ys n);
      packets =
          q.packets
          ∙ (λ i. p.packets i ++ rewrite_all (p.sequencer i) ys (p.ssrc i))
          ∙ append_assoc (packets_to dt a.log) (rewrite_all s xs n) _
          ∙ ap (λ l. packets_to dt a.log ++ l) (sym (rewrite_all-append s xs ys n));
    }

-- A silent operation gives nothing.
pub Silent-Stream :
    {w w' : Store} (dt : ℕ) → w.next ≤ w'.next → Silent w w' → dt < w.next → Stream w w' dt []
unfolding rewrite_all sequencer_after
Silent-Stream {w} {w'} dt n h l =
    let (x, y, z) = h.0 dt l in
    record {
      next = n;
      ssrc = y;
      sequencer = x;
      packets = z ∙ sym (append-nil (packets_to dt w.log));
    }

-- Packets picked in order from those that have arrived.
pub data Picks : List Packet → List Packet → Type 0 where
  nothing : Picks [] []
  skip : {p : Packet} {ps qs : List Packet} → Picks ps qs → Picks (p ∷ ps) qs
  take : {p : Packet} {ps qs : List Packet} → Picks ps qs → Picks (p ∷ ps) (p ∷ qs)

pub Picks-append : {a b x y : List Packet} → Picks a x → Picks b y → Picks (a ++ b) (x ++ y)
Picks-append nothing q = q
Picks-append (skip p) q = skip (Picks-append p q)
Picks-append (take p) q = take (Picks-append p q)
