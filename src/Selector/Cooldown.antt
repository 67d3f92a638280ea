-- ===== src/Selector/Cooldown.antt =====
-- pkg/sfu/bandwidth.go: the time between the layer switches of a `LayerSelector`.
use choice.Base.{if◌then◌else◌, nat_eq, string_eq, ℕ, ◌+◌, ◌≤◌, ◌≡◌, List, [], ◌∷◌, ◌++◌, arith}
use choice.Selector.{
  LayerSelector, set_target_layer, switch_to_target, force_switch, default_cooldown,
}
use choice.Selector.Invariant.{Call, set_target, switch, force, call}

-- The changes of the current layer that a list of calls makes, with the clock's readings.
pub data Change : Type 0 where
  switched : ℕ → ℕ → Change
  forced : ℕ → Change

change : LayerSelector → Call → List Change
change ls (set_target layer) = []
change ls (switch now stamp) =
    if (switch_to_target ls now stamp).1 then switched now stamp ∷ [] else []
change ls (force layer stamp) = forced stamp ∷ []

unfoldable pub changes : LayerSelector → List Call → List Change
unfolding change
changes ls [] = []
changes ls (c ∷ cs) = change ls c ++ changes (call ls c) cs

-- A switch on request comes at least the cooldown after the change before it; a forced one may come at
-- any time, and starts the cooldown anew.
abbrev pub IsSpaced : ℕ → List Change → Type 0
IsSpaced last [] = Unit {0}
IsSpaced last (switched now stamp ∷ cs) = (last + default_cooldown ≤ now) × IsSpaced stamp cs
IsSpaced last (forced stamp ∷ cs) = IsSpaced stamp cs

-- However the methods are called, a switch on request is made at least two seconds after the last change
-- of layer, requested or forced, of which the time was recorded.
pub changes-IsSpaced :
    (ls : LayerSelector) (cs : List Call)
    → ls.switch_cooldown ≡ default_cooldown
    → IsSpaced ls.last_switch_time (changes ls cs)
unfolding changes call set_target_layer switch_to_target force_switch
changes-IsSpaced ls [] h = tt
changes-IsSpaced ls (set_target layer ∷ cs) h =
    ground (arith, changes-IsSpaced (set_target_layer ls layer) cs)
changes-IsSpaced ls (switch now stamp ∷ cs) h =
    ground (arith, changes-IsSpaced (switch_to_target ls now stamp).0 cs)
changes-IsSpaced ls (force layer stamp ∷ cs) h = changes-IsSpaced (force_switch ls layer stamp) cs h
