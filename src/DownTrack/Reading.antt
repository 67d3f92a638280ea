-- ===== src/DownTrack/Reading.antt =====
-- pkg/sfu/downtrack.go: `readRTCP` ends.
use choice.Base.{
  nat_eq, string_eq, String, ◌≡◌, refl, ◌⊎◌, inl, inr, true, Option, none, some, List, [], ◌∷◌,
  ◌++◌, arith,
}
use choice.DownTrack.{DownTrack, read_rtcp}

-- The loop has ended once a round has found the downtrack closed, or a read has returned an error.
pub read_rtcp_ends :
    (before after : List (DownTrack × Option String)) (d : DownTrack) (error : Option String)
    → (d.closed ≡ true) ⊎ ((e : String) × (error ≡ some e))
    → read_rtcp (before ++ (d, error) ∷ after) ≡ true
unfolding read_rtcp
read_rtcp_ends [] after d error (inl c) = rw c refl
read_rtcp_ends [] after d error (inr (e, h)) = rw (h, read_rtcp) (ground arith)
read_rtcp_ends ((d', none) ∷ before) after d error h =
    ground (arith, read_rtcp_ends before after d error h)
read_rtcp_ends ((d', some e) ∷ before) after d error h = ground arith
