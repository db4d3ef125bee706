-- ===== src/Protocol/ContainerId/Tests.antt =====
-- Runs and instances for the container ids.
use nyan_real_vdd.Base.{◌≡◌, refl, ◌∷◌, []}
use nyan_real_vdd.Protocol.ContainerId.{make_container_id}

make_container_id_run :
    (make_container_id 0x12345678).data4
    ≡ 0x83 ∷ 0xD8 ∷ 0xBE ∷ 0x29 ∷ 0x78 ∷ 0x56 ∷ 0x34 ∷ 0x12 ∷ []
unfolding make_container_id
make_container_id_run = refl
