-- ===== src/Twcc/Congestion.antt =====
-- pkg/sfu/twcc.go: `CongestionController`. The estimator of github.com/pion/interceptor, once it is set, is
-- the target bitrate that it reports. (`int` has 64 bits, and the initial bitrate fits in it.)
use choice.Base.{nat_eq, string_eq, ℕ, Option, none, some}
use choice.Twcc.{TwccConfig}

pub record CongestionController : Type 0 where
  pub estimator : Option ℕ
  pub config : TwccConfig

unfoldable pub new_congestion_controller : TwccConfig → CongestionController
new_congestion_controller config = record { estimator = none; config = config }

unfoldable pub set_estimator : CongestionController → ℕ → CongestionController
set_estimator c estimator = record c { estimator = some estimator }

unfoldable pub get_target_bitrate : CongestionController → ℕ
get_target_bitrate c = elim c.estimator [ none ↦ c.config.initial_bitrate | some bitrate ↦ bitrate ]
