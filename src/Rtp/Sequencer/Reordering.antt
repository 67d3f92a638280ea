-- ===== src/Rtp/Sequencer/Reordering.antt =====
-- pkg/sfu/rtp.go: `Rewrite` takes the packet sent last for the newest one, also where packets of one
-- source arrive out of order.
use choice.Base.{nat_eq, string_eq, u16, ℕ, ◌+◌, ◌^◌, ◌<◌, ◌≡◌, refl, ◌≢◌, true, arith}
use choice.Rtp.Sequencer.{Packet, RtpSequencer, settle, rewrite}

-- Packets `late` and `early` of one source arrive in the wrong order, and a packet of another source
-- follows: it is sent under the sequence number that `late` already has.
pub rewrite_duplicate :
    (s : RtpSequencer) (late early other : Packet) (ssrc : ℕ)
    → s.inited ≡ true
    → late.ssrc ≡ early.ssrc
    → early.ssrc ≢ other.ssrc
    → early.sequence_number < 2 ^ 16
    → other.sequence_number < 2 ^ 16
    → late.sequence_number ≡ u16 (early.sequence_number + 1)
    → let (s₁, out₁) = rewrite s late ssrc in
      let (s₂, out₂) = rewrite s₁ early ssrc in
      let (s₃, out₃) = rewrite s₂ other ssrc in
      (out₃.sequence_number ≡ out₁.sequence_number) × (out₃.ssrc ≡ out₁.ssrc)
unfolding rewrite settle
rewrite_duplicate s late early other ssrc i same differ he ho next =
    (ground (arith, nat_eq.beq_iff early.ssrc other.ssrc), refl)
