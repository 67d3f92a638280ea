-- ===== src/Ticker.antt =====
-- `feedbackLoop` of pkg/sfu/twcc.go and `allocationLoop` of pkg/sfu/bandwidth.go: a goroutine that waits for a tick or for
-- the closing of a channel, while calls of other methods come in between.
use choice.Base.{
  if◌then◌else◌, nat_eq, string_eq, Bool-cases, ◌≡◌, refl, inl, inr, Bool, true, false, not, ◌&&◌,
  List, [], ◌∷◌, ◌++◌,
}

-- One round of the `for`: the calls that come before `select` proceeds, and whether it takes the tick. It can take
-- the other case only when the channel is closed; when both are ready it takes either.
pub record Round (E : Type 0) : Type 0 where
  pub before : List E
  pub ticked : Bool

pub record Looped (S O : Type 0) : Type 0 where
  pub state : S
  pub out : List O
  pub ended : Bool

module _ {S O E : Type 0} (tick : S → S × List O) (closed : S → Bool) (call : S → E → S) where
  unfoldable pub calls : S → List E → S
  calls s [] = s
  calls s (e ∷ es) = calls (call s e) es

  unfoldable pub ticker_loop : S → List (Round E) → Looped S O
  unfolding calls
  ticker_loop s [] = record { state = s; out = []; ended = false }
  ticker_loop s (r ∷ rs) =
      let s₁ = calls s r.before in
      let (s₂, out) = tick s₁ in
      let next = ticker_loop s₂ rs in
      let waiting = ticker_loop s₁ rs in
      if r.ticked
      then record next { out = out ++ next.out }
      else if closed s₁
      then record { state = s₁; out = []; ended = true }
      else waiting

-- Whether every round takes the tick.
pub all_ticked : {E : Type 0} → List (Round E) → Bool
all_ticked [] = true
all_ticked (r ∷ rs) = r.ticked && all_ticked rs

module _ {S O E : Type 0} (tick : S → S × List O) (closed : S → Bool) (call : S → E → S)
    (inert : (s : S) → closed s ≡ true → tick s ≡ (s, []))
    (stays : (s : S) (e : E) → closed s ≡ true → closed (call s e) ≡ true) where
  calls-closed :
      (s : S) (es : List E) → closed s ≡ true → closed (calls tick closed call s es) ≡ true
  unfolding calls
  calls-closed s [] h = h
  calls-closed s (e ∷ es) h = calls-closed (call s e) es (stays s e h)

  -- Once the channel is closed the loop puts nothing out, whichever case `select` takes, and it has ended unless
  -- every round so far took the tick.
  pub closed_loop :
      (s : S) (rs : List (Round E))
      → closed s ≡ true
      → let l = ticker_loop tick closed call s rs in
        (l.out ≡ []) × (closed l.state ≡ true) × (l.ended ≡ not (all_ticked rs))
  unfolding ticker_loop all_ticked
  closed_loop s [] h = (refl, h, refl)
  closed_loop s (r ∷ rs) h =
      let s₁ = calls tick closed call s r.before in
      let h₁ = calls-closed s r.before h in
      let (a, b, c) = closed_loop s₁ rs h₁ in
      elim (Bool-cases r.ticked) [
        | inl t ↦ rw t (rw (inert s₁ h₁) (a, b, c))
        | inr n ↦ rw n (rw h₁ (refl, h₁, refl))
      ]
