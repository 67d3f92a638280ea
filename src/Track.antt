-- ===== src/Track.antt =====
-- pkg/sfu/track.go: `TrackReceiver`, the layers of one track and the downtracks that take it. A downtrack
-- and a layer receiver are addresses. Each method runs under the track's lock.
pub mod Layers
pub mod DownTracks
use choice.Base.{
  if◌then◌else◌, ◌==◌, nat_eq, string_eq, lookup, insert, ℕ, String, Bool, false, Option, none,
  some, List, [], ◌∷◌, ◌++◌,
}
use choice.Layer.{Layer, is_active, new_layer, high, mid, low, default}

pub record TrackReceiver : Type 0 where
  pub track_id : String
  pub stream_id : String
  pub kind : String
  pub layers : List (String × Layer)
  pub down_tracks : List ℕ
  pub closed : Bool

unfoldable pub new_track_receiver : String → String → String → TrackReceiver
new_track_receiver track_id stream_id kind = record {
  track_id = track_id;
  stream_id = stream_id;
  kind = kind;
  layers = [];
  down_tracks = [];
  closed = false;
}

-- `ssrc` is that of the receiver.
unfoldable pub add_layer : TrackReceiver → String → ℕ → ℕ → TrackReceiver
unfolding new_layer
add_layer t name receiver ssrc =
    if t.closed
    then t
    else record t { layers = insert name (new_layer name receiver ssrc) t.layers }

unfoldable pub get_layer : TrackReceiver → String → Option Layer
get_layer t name = lookup name t.layers

-- `GetLayers`: a copy of the map.
abbrev pub all_layers : TrackReceiver → List (String × Layer)
all_layers t = t.layers

-- The loop of `GetBestLayer`: the first of the names that has an active layer.
unfoldable pub first_active : List (String × Layer) → List String → Option Layer
first_active layers [] = none
first_active layers (name ∷ names) =
    let rest = first_active layers names in
    elim (lookup name layers) [
      | none ↦ rest
      | some layer ↦ if is_active layer then some layer else rest
    ]

unfoldable pub get_best_layer : TrackReceiver → Option Layer
unfolding first_active
get_best_layer t = elim (lookup default t.layers) [
  | some layer ↦ some layer
  | none ↦ first_active t.layers (high ∷ mid ∷ low ∷ [])
]

unfoldable pub add_down_track : TrackReceiver → ℕ → TrackReceiver
add_down_track t dt = record t { down_tracks = t.down_tracks ++ dt ∷ [] }

-- The loop of `RemoveDownTrack`: without the first occurrence.
unfoldable pub remove_first : ℕ → List ℕ → List ℕ
remove_first dt [] = []
remove_first dt (d ∷ ds) = if d == dt then ds else d ∷ remove_first dt ds

unfoldable pub remove_down_track : TrackReceiver → ℕ → TrackReceiver
unfolding remove_first
remove_down_track t dt = record t { down_tracks = remove_first dt t.down_tracks }
