-- ===== src/Rtp/Keyframe/Bits.antt =====
-- pkg/sfu/rtp.go: which first bytes make a keyframe, without the masks.
use choice.Base.{
  ◌==◌, nat_eq, string_eq, ℕ, zero, suc, ◌*◌, ◌/◌, ◌%◌, bit_and, String, Bool, true, ◌&&◌,
}

masks : ℕ → Bool
masks b =
    bit_and b 0x01 == b % 2
    && bit_and b 0x10 == 16 * (b / 16 % 2)
    && bit_and b 0x40 == 64 * (b / 64 % 2)
    && bit_and b 0x1F == b % 32

-- The masks, tried on every byte below the bound.
masks_below : ℕ → Bool
masks_below zero = true
masks_below (suc b) = let rest = masks_below b in masks b && rest

abbrev pub vp8 : String
vp8 = "video/VP8"

abbrev pub vp9 : String
vp9 = "video/VP9"

abbrev pub h264 : String
h264 = "video/H264"
