-- ===== src/Twcc/Sender/Reports.antt =====
-- pkg/sfu/twcc.go: what the reports of a `TWCCSender` hold, over its life.
use choice.Base.{
  ltb, if◌then◌else◌, nat_eq, string_eq, length, All, u16, ℕ, ◌≤◌, ◌≡◌, refl, sym, ap, ◌∙◌, subst,
  ◌⊎◌, inl, inr, true, false, Option, none, some, List, [], ◌∷◌, ◌++◌, map, arith,
}
use mathlib.Core.List.{append-nil, append_assoc, map-append}
use choice.Twcc.{PacketInfo}
use choice.Twcc.Sender.{
  TwccSender, Feedback, record_packet, lowest, recv_delta, build_feedback, send_feedback,
  close_sender,
}

pub data Event : Type 0 where
  arrive : ℕ → ℕ → ℕ → Event
  tick : Event
  stop : Event

unfoldable pub after : TwccSender → Event → TwccSender
after t (arrive seq size now) = record_packet t seq size now
after t tick = (send_feedback t).0
after t stop = close_sender t

unfoldable pub reported : Option Feedback → List Feedback
reported none = []
reported (some f) = f ∷ []

unfoldable pub report : TwccSender → Event → List Feedback
unfolding reported
report t (arrive seq size now) = []
report t tick = reported (send_feedback t).1
report t stop = []

-- The reports that a list of events brings about, and the state in the end.
unfoldable pub reports : TwccSender → List Event → List Feedback
unfolding report
reports t [] = []
reports t (e ∷ es) = report t e ++ reports (after t e) es

unfoldable pub end : TwccSender → List Event → TwccSender
end t [] = t
end t (e ∷ es) = end (after t e) es

-- The arrivals before the sender is closed, in order.
unfoldable pub arrivals : List Event → List PacketInfo
arrivals [] = []
arrivals (arrive seq size now ∷ es) =
    record { sequence_number = seq; arrival_time = now; size = size } ∷ arrivals es
arrivals (tick ∷ es) = arrivals es
arrivals (stop ∷ es) = []

unfoldable pub all_deltas : List Feedback → List ℕ
all_deltas [] = []
all_deltas (f ∷ fs) = f.recv_deltas ++ all_deltas fs

abbrev pub HasSeq : ℕ → List PacketInfo → Type 0
HasSeq n [] = ⊥
HasSeq n (p ∷ ps) = (p.sequence_number ≡ n) ⊎ HasSeq n ps

lowest_lem :
    (base : ℕ) (ps : List PacketInfo)
    → (lowest base ps ≤ base)
      × All (λ p. lowest base ps ≤ p.sequence_number) ps
      × ((lowest base ps ≡ base) ⊎ HasSeq (lowest base ps) ps)
unfolding lowest
lowest_lem base [] = (omega arith, tt, inl refl)
lowest_lem base (p ∷ ps) =
    let next = if ltb p.sequence_number base then p.sequence_number else base in
    let (below, all, found) = lowest_lem next ps in
    (ground (arith, below), (ground (arith, below), all), ground (arith, found))

-- A report on recorded packets names as its base the lowest of their sequence numbers, which is one of
-- them, counts them modulo 2 ^ 16, and has one delta for each; no packets make no report.
pub build_feedback_base :
    (t : TwccSender) (ps : List PacketInfo) (f : Feedback)
    → build_feedback t ps ≡ some f
    → All (λ q. f.base_sequence_number ≤ q.sequence_number) ps
      × HasSeq f.base_sequence_number ps
      × (f.packet_status_count ≡ u16 (length ps))
      × (f.recv_deltas ≡ map (recv_delta t.reference_time) ps)
unfolding build_feedback
build_feedback_base t [] f e = absurd (cc e)
build_feedback_base t (p ∷ ps) f e =
    let (below, all, found) = lowest_lem p.sequence_number (p ∷ ps) in
    let base : f.base_sequence_number ≡ lowest p.sequence_number (p ∷ ps) = ground (arith, e) in
    (
      subst (λ n. All (λ q. n ≤ q.sequence_number) (p ∷ ps)) (sym base) all,
      subst (λ n. HasSeq n (p ∷ ps)) (sym base) (found_in found),
      ground (arith, e),
      ground (arith, e),
    )
  where
    found_in :
        (lowest p.sequence_number (p ∷ ps) ≡ p.sequence_number)
          ⊎ HasSeq (lowest p.sequence_number (p ∷ ps)) (p ∷ ps)
        → HasSeq (lowest p.sequence_number (p ∷ ps)) (p ∷ ps)
    found_in (inl e) = inl (sym e)
    found_in (inr h) = h

module _ (t : TwccSender) (c : t.closed ≡ true) where
  closed_after : (e : Event) → (report t e ≡ []) × (after t e ≡ t)
  unfolding report after record_packet send_feedback close_sender
  closed_after (arrive seq size now) = (refl, ground arith)
  closed_after tick = (ground arith, ground arith)
  closed_after stop = (refl, ground arith)

pub closed_reports :
    (t : TwccSender) (es : List Event) → t.closed ≡ true → (reports t es ≡ []) × (end t es ≡ t)
unfolding reports end
closed_reports t [] c = (refl, refl)
closed_reports t (e ∷ es) c =
    let (silent, same) = closed_after t c e in
    let (later, stays) = closed_reports t es c in (rw (silent, same) later, rw same stays)

all_deltas-append : (fs gs : List Feedback) → all_deltas (fs ++ gs) ≡ all_deltas fs ++ all_deltas gs
unfolding all_deltas
all_deltas-append [] gs = refl
all_deltas-append (f ∷ fs) gs = simp (all_deltas-append fs gs, append_assoc)

-- A tick reports all that waits, and goes on from an empty list.
tick_lem :
    (t : TwccSender) (ps : List PacketInfo)
    → t.packets ≡ ps
    → t.closed ≡ false
    → t.has_callback ≡ true
    → let (t', out) = send_feedback t in
      (all_deltas (reported out) ≡ map (recv_delta t.reference_time) ps)
      × (t'.packets ≡ [])
      × (t'.reference_time ≡ t.reference_time)
      × (t'.closed ≡ false)
      × (t'.has_callback ≡ true)
unfolding send_feedback all_deltas reported
tick_lem t [] e o h = ground arith
tick_lem t (p ∷ ps) e o h = ground (arith, append-nil (map (recv_delta t.reference_time) (p ∷ ps)))

step :
    (t t' : TwccSender) (e : Event) (es : List Event)
    → after t e ≡ t'
    → (reports t (e ∷ es) ≡ report t e ++ reports t' es) × (end t (e ∷ es) ≡ end t' es)
unfolding reports end
step t t' e es same = (ap (λ x. report t e ++ reports x es) same, ap (λ x. end x es) same)

conserve :
    (t : TwccSender) (es : List Event) (r : ℕ)
    → t.reference_time ≡ r
    → t.closed ≡ false
    → t.has_callback ≡ true
    → all_deltas (reports t es) ++ map (recv_delta r) (end t es).packets
      ≡ map (recv_delta r) t.packets ++ map (recv_delta r) (arrivals es)
unfolding report arrivals all_deltas
conserve t [] r e o h = unfold reports end arrivals all_deltas in simp append-nil
conserve t (arrive seq size now ∷ es) r e o h =
    let p : PacketInfo = record { sequence_number = seq; arrival_time = now; size = size } in
    let t' : TwccSender = record t { packets = t.packets ++ p ∷ [] } in
    let same : after t (arrive seq size now) ≡ t' = unfold after record_packet in ground arith in
    let (now_lem, end_lem) = step t t' (arrive seq size now) es same in
    rw (now_lem, end_lem) (simp (conserve t' es r e o h, map-append, append_assoc))
conserve t (tick ∷ es) r e o h =
    let t' = (send_feedback t).0 in
    let (out, empty, e', o', h') = tick_lem t t.packets refl o h in
    let (now_lem, end_lem) = step t t' tick es (unfold after in refl) in
    rw (now_lem, end_lem)
      (simp (all_deltas-append, out, e, append_assoc, conserve t' es r (e' ∙ e) o' h', empty))
conserve t (stop ∷ es) r e o h =
    let t' : TwccSender = record t { closed = true } in
    let same : after t stop ≡ t' = unfold after close_sender in ground arith in
    let (now_lem, end_lem) = step t t' stop es same in
    let (silent, stays) = closed_reports t' es refl in
    rw (now_lem, end_lem, silent, stays) (unfold arrivals report all_deltas in simp append-nil)

-- Over any arrivals and ticks, before and after it is closed, an open sender with a callback reports each
-- packet that arrives before the closing exactly once and in order: the deltas of the reports, followed
-- by those of the packets still waiting, are the deltas of the packets that waited first and of those
-- that arrived.
pub reports_conserve :
    (t : TwccSender) (es : List Event)
    → t.closed ≡ false
    → t.has_callback ≡ true
    → let delta = map (recv_delta t.reference_time) in
      all_deltas (reports t es) ++ delta (end t es).packets ≡ delta t.packets ++ delta (arrivals es)
reports_conserve t es o h = conserve t es t.reference_time refl o h
