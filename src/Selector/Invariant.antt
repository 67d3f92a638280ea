-- ===== src/Selector/Invariant.antt =====
-- pkg/sfu/bandwidth.go: what holds of a `LayerSelector` after any calls of its methods.
use choice.Base.{
  nat_eq, string_eq, ℕ, String, ◌≡◌, ◌≢◌, ◌↔◌, true, false, ◌&&◌, List, [], ◌∷◌, arith, eq_iff,
}
use choice.Selector.{
  LayerSelector, new_layer_selector, set_target_layer, needs_switch, can_switch, switch_to_target,
  force_switch, default_cooldown,
}

-- A call of a method that changes the state, with the clock's readings.
pub data Call : Type 0 where
  set_target : String → Call
  switch : ℕ → ℕ → Call
  force : String → ℕ → Call

unfoldable pub call : LayerSelector → Call → LayerSelector
call ls (set_target layer) = set_target_layer ls layer
call ls (switch now stamp) = (switch_to_target ls now stamp).0
call ls (force layer stamp) = force_switch ls layer stamp

unfoldable pub run : LayerSelector → List Call → LayerSelector
run ls [] = ls
run ls (c ∷ cs) = run (call ls c) cs

-- Without a pending switch the current layer is the target.
pub record Inv (ls : LayerSelector) : Type 0 where
  pub settled : ls.pending_switch ≡ false → ls.current_layer ≡ ls.target_layer
  pub cooldown : ls.switch_cooldown ≡ default_cooldown

pub call-Inv : (ls : LayerSelector) (c : Call) → Inv ls → Inv (call ls c)
unfolding call set_target_layer switch_to_target force_switch
call-Inv ls (set_target layer) v = ground (arith, eq_iff layer ls.target_layer)
call-Inv ls (switch now stamp) v = ground arith
call-Inv ls (force layer stamp) v = ground arith

run-Inv : (ls : LayerSelector) (cs : List Call) → Inv ls → Inv (run ls cs)
unfolding run
run-Inv ls [] v = v
run-Inv ls (c ∷ cs) v = run-Inv (call ls c) cs (call-Inv ls c v)

pub new-Inv : (track_id layer : String) → Inv (new_layer_selector track_id layer)
unfolding new_layer_selector
new-Inv track_id layer = ground arith

-- After any calls on a new selector, `NeedsSwitch` says exactly whether the current layer differs from
-- the target: a requested layer is never forgotten, and none is pending without a request.
pub needs_switch_iff :
    (track_id layer : String) (cs : List Call)
    → let ls = run (new_layer_selector track_id layer) cs in
      (needs_switch ls ≡ true) ↔ (ls.current_layer ≢ ls.target_layer)
unfolding needs_switch
needs_switch_iff track_id layer cs =
    let ls = run (new_layer_selector track_id layer) cs in
    let v : Inv ls = run-Inv (new_layer_selector track_id layer) cs (new-Inv track_id layer) in
    (
      ground (arith, eq_iff ls.current_layer ls.target_layer),
      λ n. ground (arith, v.settled, eq_iff ls.current_layer ls.target_layer),
    )

-- `SwitchToTarget` switches exactly when `NeedsSwitch` and `CanSwitch` hold at its reading of the clock.
-- It then reaches the target, is settled and starts the cooldown; otherwise it changes nothing.
pub switch_to_target_cases :
    (ls : LayerSelector) (now stamp : ℕ)
    → let (ls', done) = switch_to_target ls now stamp in
      (done ≡ (needs_switch ls && can_switch ls now))
      × (done ≡ true
          → (ls'.current_layer ≡ ls.target_layer)
            × (ls'.target_layer ≡ ls.target_layer)
            × (needs_switch ls' ≡ false)
            × (ls'.last_switch_time ≡ stamp))
      × (done ≡ false → ls' ≡ ls)
unfolding needs_switch can_switch switch_to_target
switch_to_target_cases ls now stamp = (ground arith, ground arith, ground arith)
