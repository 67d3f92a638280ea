-- ===== src/Selector.antt =====
-- pkg/sfu/bandwidth.go: `LayerSelector`, the layer that one subscriber gets of one track, and the layer
-- that it waits for. Each method runs under the selector's lock. Times are nanoseconds on one clock, of
-- which a method that reads it takes the reading as an argument; `time.Since` is `elapsed`, which stops
-- at 0, and is only compared with the cooldown.
pub mod Invariant
pub mod Cooldown
use choice.Base.{
  ltb, leb, if◌then◌else◌, ◌==◌, ◌/=◌, nat_eq, string_eq, ℕ, ◌-◌, String, Bool, true, false, not,
  ◌&&◌, ◌||◌, Option, none, some,
}
use choice.Layer.{high}

pub record LayerSelector : Type 0 where
  pub track_id : String
  pub current_layer : String
  pub target_layer : String
  pub pending_switch : Bool
  pub last_switch_time : ℕ
  pub switch_cooldown : ℕ
  pub has_callback : Bool  -- whether `onSwitch` is set

-- 2 seconds.
abbrev pub default_cooldown : ℕ
default_cooldown = 2_000_000_000

abbrev pub elapsed : ℕ → ℕ → ℕ
elapsed now since = now - since

unfoldable pub new_layer_selector : String → String → LayerSelector
new_layer_selector track_id initial_layer =
    let layer : String = if initial_layer == "" then high else initial_layer in
    record {
      track_id = track_id;
      current_layer = layer;
      target_layer = layer;
      pending_switch = false;
      last_switch_time = 0;
      switch_cooldown = default_cooldown;
      has_callback = false;
    }

unfoldable pub set_target_layer : LayerSelector → String → LayerSelector
set_target_layer ls layer =
    if layer /= ls.target_layer
    then record ls { target_layer = layer; pending_switch = true }
    else ls

unfoldable pub get_current_layer : LayerSelector → String
get_current_layer ls = ls.current_layer

unfoldable pub get_target_layer : LayerSelector → String
get_target_layer ls = ls.target_layer

unfoldable pub needs_switch : LayerSelector → Bool
needs_switch ls = ls.pending_switch && ls.current_layer /= ls.target_layer

unfoldable pub can_switch : LayerSelector → ℕ → Bool
can_switch ls now = leb ls.switch_cooldown (elapsed now ls.last_switch_time)

-- `OnSwitch`
abbrev pub on_switch : LayerSelector → LayerSelector
on_switch ls = record ls { has_callback = true }

-- `now` is read for the cooldown, and `stamp` when the switch is recorded. The result says whether the
-- layer was switched.
unfoldable pub switch_to_target : LayerSelector → ℕ → ℕ → LayerSelector × Bool
switch_to_target ls now stamp =
    if not ls.pending_switch || ls.current_layer == ls.target_layer
    then (ls, false)
    else if ltb (elapsed now ls.last_switch_time) ls.switch_cooldown
    then (ls, false)
    else (
      record ls {
        current_layer = ls.target_layer;
        pending_switch = false;
        last_switch_time = stamp;
      },
      true,
    )

-- The end of `SwitchToTarget`: the layer with which a goroutine calls `onSwitch`, if it is set and the layer
-- was switched.
abbrev pub switch_callback : LayerSelector × Bool → Option String
switch_callback (ls, switched) = if switched && ls.has_callback then some ls.current_layer else none

unfoldable pub force_switch : LayerSelector → String → ℕ → LayerSelector
force_switch ls layer stamp = record ls {
  current_layer = layer;
  target_layer = layer;
  pending_switch = false;
  last_switch_time = stamp;
}
