-- ===== src/Rtp/Sequencer/Continuity.antt =====
-- pkg/sfu/rtp.go: the stream that `Rewrite` sends, against the packets that it is given.
use choice.Base.{
  if◌then◌else◌, ◌==◌, nat_eq, string_eq, All, u16, u32, sub16, sub32, ℕ, ◌+◌, ◌^◌, ◌<◌, ◌≡◌, refl,
  true, List, [], ◌∷◌, arith,
}
use choice.Rtp.Sequencer.{Packet, RtpSequencer, settle, rewrite}

-- One call of `Rewrite` for each packet.
unfoldable pub rewrite_all : RtpSequencer → List Packet → ℕ → List Packet
rewrite_all s [] ssrc = []
rewrite_all s (p ∷ ps) ssrc = let (s', out) = rewrite s p ssrc in out ∷ rewrite_all s' ps ssrc

-- Field widths of a packet that has been parsed.
pub record InRange (p : Packet) : Type 0 where
  pub seq : p.sequence_number < 2 ^ 16
  pub ts : p.timestamp < 2 ^ 32

-- The steps from each packet to the next, where a change of source counts as one.
abbrev seq_step : Packet → Packet → ℕ
seq_step p q = if q.ssrc == p.ssrc then sub16 q.sequence_number p.sequence_number else 1

abbrev ts_step : Packet → Packet → ℕ
ts_step p q = if q.ssrc == p.ssrc then sub32 q.timestamp p.timestamp else 1

abbrev pub source_steps : List Packet → List (ℕ × ℕ)
source_steps [] = []
source_steps (p ∷ []) = []
source_steps (p ∷ q ∷ ps) = (seq_step p q, ts_step p q) ∷ source_steps (q ∷ ps)

-- The plain steps of a stream.
abbrev pub steps : List Packet → List (ℕ × ℕ)
steps [] = []
steps (p ∷ []) = []
steps (p ∷ q ∷ ps) =
    (sub16 q.sequence_number p.sequence_number, sub32 q.timestamp p.timestamp) ∷ steps (q ∷ ps)

-- The sequencer as a call leaves it, after packet `p` became packet `out`.
record Sent (s : RtpSequencer) (p out : Packet) : Type 0 where
  started : s.inited ≡ true
  source : s.last_ssrc ≡ p.ssrc
  seq : s.last_seq ≡ u16 (p.sequence_number + s.seq_offset)
  ts : s.last_ts ≡ u32 (p.timestamp + s.ts_offset)
  out_seq : out.sequence_number ≡ s.last_seq
  out_ts : out.timestamp ≡ s.last_ts

rewrite-Sent :
    (s : RtpSequencer) (p : Packet) (ssrc : ℕ) → Sent (rewrite s p ssrc).0 p (rewrite s p ssrc).1
unfolding rewrite settle
rewrite-Sent s p ssrc = ground arith

next_seq :
    (s : RtpSequencer) (p out q : Packet) (ssrc : ℕ)
    → Sent s p out
    → InRange p
    → InRange q
    → sub16 (rewrite s q ssrc).1.sequence_number out.sequence_number ≡ seq_step p q
unfolding rewrite settle
next_seq s p out q ssrc v hp hq = ground arith

next_ts :
    (s : RtpSequencer) (p out q : Packet) (ssrc : ℕ)
    → Sent s p out
    → InRange p
    → InRange q
    → sub32 (rewrite s q ssrc).1.timestamp out.timestamp ≡ ts_step p q
unfolding rewrite settle
next_ts s p out q ssrc v hp hq = ground arith

pair_eq : {a b c d : ℕ} → a ≡ b → c ≡ d → ◌≡◌ {A = ℕ × ℕ} (a, c) (b, d)
pair_eq p q = cc

steps_from :
    (s : RtpSequencer) (p out : Packet) (ps : List Packet) (ssrc : ℕ)
    → Sent s p out
    → All InRange (p ∷ ps)
    → steps (out ∷ rewrite_all s ps ssrc) ≡ source_steps (p ∷ ps)
unfolding rewrite_all
steps_from s p out [] ssrc v h = refl
steps_from s p out (q ∷ ps) ssrc v (hp, (hq, h)) =
    let (s', out') = rewrite s q ssrc in
    cc (
      pair_eq (next_seq s p out q ssrc v hp hq) (next_ts s p out q ssrc v hp hq),
      steps_from s' q out' ps ssrc (rewrite-Sent s q ssrc) (hq, h),
    )

-- Over any stream of packets with fields in range, and from any state, the stream that is sent advances,
-- in sequence number and in timestamp, by what its source advances (both modulo the field's width),
-- and by one where the source changes.
pub steps-rewrite_all :
    (s : RtpSequencer) (ps : List Packet) (ssrc : ℕ)
    → All InRange ps
    → steps (rewrite_all s ps ssrc) ≡ source_steps ps
unfolding rewrite_all
steps-rewrite_all s [] ssrc h = refl
steps-rewrite_all s (p ∷ ps) ssrc h =
    steps_from (rewrite s p ssrc).0 p (rewrite s p ssrc).1 ps ssrc (rewrite-Sent s p ssrc) h

-- What `Rewrite` leaves alone or sets: the subscriber sees one source, in the given order, and the
-- payload and the remaining header fields of each packet are copied.
abbrev pub SameContent : ℕ → List Packet → List Packet → Type 0
SameContent ssrc [] [] = Unit {0}
SameContent ssrc (p ∷ ps) (q ∷ qs) =
    (q.ssrc ≡ ssrc) × (q.payload ≡ p.payload) × (q.rest ≡ p.rest) × SameContent ssrc ps qs
SameContent ssrc _ _ = ⊥

-- The stream that is sent has one packet for each packet given, in order, under the given SSRC, with
-- the payload and the other header fields unchanged, and its numbers fit their fields.
pub rewrite_all-SameContent :
    (s : RtpSequencer) (ps : List Packet) (ssrc : ℕ)
    → SameContent ssrc ps (rewrite_all s ps ssrc) × All InRange (rewrite_all s ps ssrc)
unfolding rewrite_all rewrite
rewrite_all-SameContent s [] ssrc = (tt, tt)
rewrite_all-SameContent s (p ∷ ps) ssrc =
    let (same, fits) = rewrite_all-SameContent (rewrite s p ssrc).0 ps ssrc in
    ((refl, refl, refl, same), (record { seq = omega arith; ts = omega arith }, fits))
