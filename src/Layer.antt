-- ===== src/Layer.antt =====
-- pkg/sfu/layer.go: the names of the quality layers, one layer of a track, and the order of quality.
-- A lock is not modelled: each method runs with its lock held.
use choice.Base.{if◌then◌else◌, ◌==◌, nat_eq, string_eq, ℕ, String, Bool, true}

abbrev pub high : String
high = "high"

abbrev pub mid : String
mid = "mid"

abbrev pub low : String
low = "low"

-- For tracks without simulcast, such as audio.
abbrev pub default : String
default = "default"

-- `receiver` is the address of the layer's receiver.
pub record Layer : Type 0 where
  pub name : String
  pub receiver : ℕ
  pub ssrc : ℕ
  pub active : Bool

unfoldable pub new_layer : String → ℕ → ℕ → Layer
new_layer name receiver ssrc = record {
  name = name;
  receiver = receiver;
  ssrc = ssrc;
  active = true;
}

abbrev pub is_active : Layer → Bool
is_active l = l.active

unfoldable pub set_active : Layer → Bool → Layer
set_active l active = record l { active = active }

-- Higher is better.
unfoldable pub layer_priority : String → ℕ
layer_priority name =
    if name == high
    then 3
    else if name == mid
    then 2
    else if name == low
    then 1
    else if name == default
    then 1
    else 0
