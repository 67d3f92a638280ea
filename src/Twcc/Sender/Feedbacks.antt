-- ===== src/Twcc/Sender/Feedbacks.antt =====
-- pkg/sfu/twcc.go: `feedbackLoop`, which `Start` runs as a goroutine.
use choice.Base.{
  if◌then◌else◌, nat_eq, string_eq, Bool-cases, ℕ, ◌≡◌, refl, sym, ap, ◌∙◌, inl, inr, Bool, true,
  false, not, ◌&&◌, ◌||◌, List, [], ◌∷◌, ◌++◌, map, arith,
}
use choice.Ticker.{Round, Looped, calls, ticker_loop, all_ticked, closed_loop}
use choice.Twcc.Sender.{
  TwccSender, Feedback, recv_delta, record_packet, send_feedback, close_sender,
}
use choice.Twcc.Sender.Reports.{
  Event, arrive, tick, stop, after, reported, report, reports, end, arrivals, all_deltas,
  closed_reports, reports_conserve,
}

-- What other goroutines call meanwhile.
pub data Call : Type 0 where
  record_call : ℕ → ℕ → ℕ → Call
  close_call : Call

unfoldable pub call : TwccSender → Call → TwccSender
call t (record_call seq size now) = record_packet t seq size now
call t close_call = close_sender t

unfoldable pub on_tick : TwccSender → TwccSender × List Feedback
unfolding reported
on_tick t = let (t', feedback) = send_feedback t in (t', reported feedback)

unfoldable pub feedback_loop : TwccSender → List (Round Call) → Looped TwccSender Feedback
unfolding on_tick call
feedback_loop t rounds = ticker_loop on_tick (λ s. s.closed) call t rounds

abbrev event : Call → Event
event (record_call seq size now) = arrive seq size now
event close_call = stop

-- The calls and the ticks, in order.
unfoldable pub events_of : List (Round Call) → List Event
events_of [] = []
events_of (r ∷ rs) =
    let rest = events_of rs in map event r.before ++ (if r.ticked then tick ∷ rest else rest)

call-after :
    (t : TwccSender) (c : Call) → (call t c ≡ after t (event c)) × (report t (event c) ≡ [])
unfolding call after report
call-after t (record_call seq size now) = (refl, refl)
call-after t close_call = (refl, refl)

calls_report :
    (t : TwccSender) (cs : List Call) (es : List Event)
    → reports t (map event cs ++ es) ≡ reports (calls on_tick (λ s. s.closed) call t cs) es
unfolding calls reports
calls_report t [] es = refl
calls_report t (c ∷ cs) es =
    let (same, silent) = call-after t c in rw silent (rw (sym same) (calls_report (call t c) cs es))

tick_report :
    (t : TwccSender) (es : List Event)
    → reports t (tick ∷ es) ≡ (on_tick t).1 ++ reports (on_tick t).0 es
unfolding on_tick reports report after
tick_report t es = refl

end-calls :
    (t : TwccSender) (cs : List Call) (es : List Event)
    → end t (map event cs ++ es) ≡ end (calls on_tick (λ s. s.closed) call t cs) es
unfolding calls end
end-calls t [] es = refl
end-calls t (c ∷ cs) es =
    ap (λ x. end x (map event cs ++ es)) (sym (call-after t c).0) ∙ end-calls (call t c) cs es

tick_end : (t : TwccSender) (es : List Event) → end t (tick ∷ es) ≡ end (on_tick t).0 es
unfolding on_tick end after
tick_end t es = refl

closed_tick : (s : TwccSender) → s.closed ≡ true → on_tick s ≡ (s, [])
unfolding on_tick send_feedback reported
closed_tick s c = rw c refl

closed_call : (s : TwccSender) (e : Call) → s.closed ≡ true → (call s e).closed ≡ true
unfolding call record_packet close_sender
closed_call s (record_call seq size now) c = ground (arith, c)
closed_call s close_call c = ground (arith, c)

-- The loop reports what the calls and the ticks bring about, in order, until it ends; after its end they would bring
-- about nothing, and leave the sender as it is.
loop_reports :
    (t : TwccSender) (rounds : List (Round Call))
    → let l = feedback_loop t rounds in
      (l.out ≡ reports t (events_of rounds)) × (l.state ≡ end t (events_of rounds))
unfolding feedback_loop ticker_loop events_of
loop_reports t [] = unfold reports end in (refl, refl)
loop_reports t (r ∷ rs) =
    let t₁ = calls on_tick (λ s. s.closed) call t r.before in
    let rest = events_of rs in
    elim (Bool-cases r.ticked) [
      | inl y ↦
          let (t₂, out) = on_tick t₁ in
          let (later, last) = loop_reports t₂ rs in
          rw y (
            ap (λ l. out ++ l) later
                ∙ sym (tick_report t₁ rest)
                ∙ sym (calls_report t r.before (tick ∷ rest)),
            last ∙ sym (tick_end t₁ rest) ∙ sym (end-calls t r.before (tick ∷ rest)),
          )
      | inr n ↦ rw n (
          rw (calls_report t r.before rest, end-calls t r.before rest)
            (elim (Bool-cases t₁.closed) [
              | inl c ↦
                  let (silent, still) = closed_reports t₁ rest c in rw c (sym silent, sym still)
              | inr o ↦ rw o (loop_reports t₁ rs)
            ]))
    ]

-- `Close` is among the calls.
unfoldable pub closes : List Call → Bool
closes [] = false
closes (close_call ∷ cs) = true
closes (record_call seq size now ∷ cs) = closes cs

-- There is a round without a tick at which `Close` has been called, or had been before the first round.
unfoldable pub has_exit : Bool → List (Round Call) → Bool
has_exit closed [] = false
has_exit closed (r ∷ rs) =
    let closed' = closed || closes r.before in
    let later = has_exit closed' rs in (closed' && not r.ticked) || later

calls_closed :
    (t : TwccSender) (cs : List Call)
    → (calls on_tick (λ s. s.closed) call t cs).closed ≡ (t.closed || closes cs)
unfolding calls closes call record_packet close_sender
calls_closed t [] = ground arith
calls_closed t (record_call seq size now ∷ cs) =
    calls_closed (record_packet t seq size now) cs ∙ ground arith
calls_closed t (close_call ∷ cs) = calls_closed (close_sender t) cs ∙ ground arith

tick_closed : (t : TwccSender) → (on_tick t).0.closed ≡ t.closed
unfolding on_tick send_feedback
tick_closed t = ground arith

loop_ends :
    (t : TwccSender) (rounds : List (Round Call))
    → (feedback_loop t rounds).ended ≡ has_exit t.closed rounds
unfolding feedback_loop ticker_loop has_exit
loop_ends t [] = refl
loop_ends t (r ∷ rs) =
    let t₁ = calls on_tick (λ s. s.closed) call t r.before in
    let closed' = calls_closed t r.before in
    elim (Bool-cases r.ticked) [
      | inl y ↦ rw y (
          loop_ends (on_tick t₁).0 rs
          ∙ ap (λ b. has_exit b rs) (tick_closed t₁ ∙ closed')
          ∙ ground arith)
      | inr n ↦ rw n (elim (Bool-cases t₁.closed) [
        | inl c ↦ rw c (ground (arith, closed', c))
        | inr o ↦
            rw o (loop_ends t₁ rs ∙ ap (λ b. has_exit b rs) closed' ∙ ground (arith, closed', o))
      ])
    ]

-- However the rounds of `feedbackLoop` on an open sender with a callback and the calls of other goroutines
-- interleave, the loop reports what the calls and the ticks, one after another, make the sender report; its reports
-- hold, exactly once and in order, the packets that waited first and those that arrive before `Close`, but those
-- that still wait; and it has ended exactly if there is a round without a tick at which `Close` has been called.
pub feedback_loop_lem :
    (t : TwccSender) (rounds : List (Round Call))
    → t.closed ≡ false
    → t.has_callback ≡ true
    → let l = feedback_loop t rounds in
      let delta = map (recv_delta t.reference_time) in
      (l.out ≡ reports t (events_of rounds))
      × (all_deltas l.out ++ delta l.state.packets
          ≡ delta t.packets ++ delta (arrivals (events_of rounds)))
      × (l.ended ≡ has_exit false rounds)
feedback_loop_lem t rounds o h =
    let delta = map (recv_delta t.reference_time) in
    let (out, last) = loop_reports t rounds in
    (
      out,
      rw (out, last) (reports_conserve t (events_of rounds) o h),
      loop_ends t rounds ∙ ap (λ b. has_exit b rounds) o,
    )

-- After `Close` the loop reports nothing more, whichever case `select` takes, and ends at the first round that does
-- not take a tick.
pub closed_feedback_loop :
    (t : TwccSender) (rounds : List (Round Call))
    → t.closed ≡ true
    → let l = feedback_loop t rounds in
      (l.out ≡ []) × (l.state.closed ≡ true) × (l.ended ≡ not (all_ticked rounds))
unfolding feedback_loop
closed_feedback_loop t rounds h =
    closed_loop on_tick (λ s. s.closed) call closed_tick closed_call t rounds h
