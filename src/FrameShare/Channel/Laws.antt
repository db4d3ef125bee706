-- ===== src/FrameShare/Channel/Laws.antt =====
-- Creating a channel.
use nyan_real_vdd.Base.{◌≡◌, true, arith}
use nyan_real_vdd.FrameShare.Channel.{Channel, active, create, created, CreateEnv}

-- A new channel is active, and waits.
pub create-active : (env : CreateEnv) {c : Channel} → create env ≡ created c → active c ≡ true
unfolding create
create-active env e = ground arith
