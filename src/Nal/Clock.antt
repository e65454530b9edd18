-- ===== src/Nal/Clock.antt =====
-- The RTP clock of video in platform/common/nal_split.h.
use libmezia.Prelude.{ℕ, ◌*◌, ◌/◌, ◌≤◌, ◌≡◌, refl, arith, u32}
use libmezia.Nal.{rtp_video_timestamp}

-- The video clock of 90 kHz is exact, as a 32-bit number, for the first 204963823041217 nanoseconds,
-- which are 56.9 hours; then the product wraps at 64 bits, and the timestamp falls back to 0.
pub rtp_video_timestamp-exact :
    (now_ns : ℕ)
    → now_ns ≤ 204963823041217
    → (rtp_video_timestamp now_ns ≡ u32 (now_ns * 90000 / 1000000000))
      × (rtp_video_timestamp 204963823041217 ≡ 1266874889)
      × (rtp_video_timestamp 204963823041218 ≡ 0)
unfolding rtp_video_timestamp
rtp_video_timestamp-exact now_ns low = (omega arith, refl, refl)
