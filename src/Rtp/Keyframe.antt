-- ===== src/Rtp/Keyframe.antt =====
-- pkg/sfu/rtp.go: `IsKeyframe`. A payload is a list of bytes.
pub mod Bits
use choice.Base.{
  ltb, if◌then◌else◌, ◌==◌, ◌/=◌, nat_eq, string_eq, length, ℕ, bit_and, String, Bool, false, ◌&&◌,
  ◌||◌, List, [], ◌∷◌,
}

-- `payload[0]`; the callers have checked that there is one.
first : List ℕ → ℕ
first [] = 0
first (b ∷ payload) = b

is_vp8_keyframe : List ℕ → Bool
unfolding first
is_vp8_keyframe payload =
    if ltb (length payload) 1
    then false
    else bit_and (first payload) 0x01 == 0 && bit_and (first payload) 0x10 /= 0

is_vp9_keyframe : List ℕ → Bool
unfolding first
is_vp9_keyframe payload =
    if ltb (length payload) 1 then false else bit_and (first payload) 0x40 == 0

is_h264_keyframe : List ℕ → Bool
unfolding first
is_h264_keyframe payload =
    if ltb (length payload) 1
    then false
    else let nal_type = bit_and (first payload) 0x1F in nal_type == 5 || nal_type == 7

unfoldable pub is_keyframe : List ℕ → String → Bool
unfolding is_vp8_keyframe is_vp9_keyframe is_h264_keyframe
is_keyframe payload codec_type =
    if length payload == 0
    then false
    else if codec_type == "video/VP8"
    then is_vp8_keyframe payload
    else if codec_type == "video/VP9"
    then is_vp9_keyframe payload
    else if codec_type == "video/H264"
    then is_h264_keyframe payload
    else false
