-- ===== src/Track/DownTracks.antt =====
-- pkg/sfu/track.go: the list of a track's downtracks.
use choice.Base.{
  if◌then◌else◌, ◌==◌, nat_eq, string_eq, Bool-cases, ℕ, suc, ◌+◌, ◌-◌, ◌≡◌, inl, inr, List, [],
  ◌∷◌, ◌++◌, arith,
}
use choice.Track.{TrackReceiver, add_down_track, remove_first, remove_down_track}

abbrev pub count : ℕ → List ℕ → ℕ
count a [] = 0
count a (x ∷ xs) = let rest = count a xs in if x == a then suc rest else rest

count-append : (a : ℕ) (xs ys : List ℕ) → count a (xs ++ ys) ≡ count a xs + count a ys
count-append a [] ys = omega arith
count-append a (x ∷ xs) ys = ground (arith, count-append a xs ys)

count-remove_first :
    (dt a : ℕ) (ds : List ℕ)
    → count a (remove_first dt ds) ≡ count a ds - (if dt == a then 1 else 0)
unfolding remove_first
count-remove_first dt a [] = ground arith
count-remove_first dt a (d ∷ ds) = elim (Bool-cases (d == dt)) [
  | inl hit ↦ ground arith
  | inr miss ↦ ground (arith, count-remove_first dt a ds)
]

remove_first-append :
    (dt : ℕ) (ds : List ℕ) → count dt ds ≡ 0 → remove_first dt (ds ++ dt ∷ []) ≡ ds
unfolding remove_first
remove_first-append dt [] h = ground arith
remove_first-append dt (d ∷ ds) h = ground (arith, remove_first-append dt ds)

-- `AddDownTrack` registers the downtrack once more, `RemoveDownTrack` unregisters it once, if it is
-- registered, both leave the registrations of the others as they were, and removing a downtrack that was
-- just added for the first time restores the track.
pub down_track_counts :
    (t : TrackReceiver) (dt a : ℕ)
    → let n = count a t.down_tracks in
      (count a (add_down_track t dt).down_tracks ≡ n + (if dt == a then 1 else 0))
      × (count a (remove_down_track t dt).down_tracks ≡ n - (if dt == a then 1 else 0))
      × (count dt t.down_tracks ≡ 0 → remove_down_track (add_down_track t dt) dt ≡ t)
unfolding add_down_track remove_down_track
down_track_counts t dt a = (
  ground (arith, count-append a t.down_tracks (dt ∷ [])),
  count-remove_first dt a t.down_tracks,
  λ h. ground (arith, remove_first-append dt t.down_tracks h),
)
