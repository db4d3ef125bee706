-- ===== src/Protocol/ContainerId.antt =====
-- The container-id helpers of include/nyanvdd_protocol.h: a cookie in the last four bytes of a GUID.
mod Tests
use nyan_real_vdd.Base.{
  ℕ, ◌+◌, ◌*◌, ◌^◌, ◌<◌, ◌≡◌, ◌≢◌, refl, ap, Bool, true, false, ◌||◌, ◌&&◌, not, List, [], ◌∷◌,
  arith, ◌==◌, if◌then◌else◌, get_or, set, length, All,
}
use nyan_real_vdd.Base.Bits.{word_of, word_of-byte_of, word_of_sum, byte_of}

-- GUID
pub record Guid : Type 0 where
  pub data1 : ℕ
  pub data2 : ℕ
  pub data3 : ℕ
  pub data4 : List ℕ

-- NYANVDD_CONTAINER_ID_BASE
abbrev pub container_id_base : Guid
container_id_base = record {
  data1 = 0x408B3FE4;
  data2 = 0x8AC2;
  data3 = 0x4E97;
  data4 = 0x83 ∷ 0xD8 ∷ 0xBE ∷ 0x29 ∷ 0 ∷ 0 ∷ 0 ∷ 0 ∷ [];
}

-- NyanVddMakeContainerId
pub make_container_id : ℕ → Guid
make_container_id cookie =
    let b0 = set container_id_base.data4 4 (byte_of cookie 0) in
    let b1 = set b0 5 (byte_of cookie 8) in
    let b2 = set b1 6 (byte_of cookie 16) in
    let b3 = set b2 7 (byte_of cookie 24) in record container_id_base { data4 = b3 }

-- The loop over the first four bytes of Data4: whether each agrees with the base's.
prefix_matches : List ℕ → Bool
prefix_matches d4 =
    get_or d4 0 0 == 0x83
    && (get_or d4 1 0 == 0xD8 && (get_or d4 2 0 == 0xBE && get_or d4 3 0 == 0x29))

-- NyanVddCookieFromContainerId: 0 for a GUID of another origin.
pub cookie_from_container_id : Guid → ℕ
unfolding prefix_matches
cookie_from_container_id g =
    if not (g.data1 == 0x408B3FE4) || (not (g.data2 == 0x8AC2) || not (g.data3 == 0x4E97))
    then 0
    else if not (prefix_matches g.data4)
    then 0
    else word_of (get_or g.data4 4 0) (get_or g.data4 5 0) (get_or g.data4 6 0) (get_or g.data4 7 0)

-- A 32-bit cookie is read back from the container id that is made of it.
pub cookie_from_container_id-make_container_id :
    (cookie : ℕ) → cookie < 2 ^ 32 → cookie_from_container_id (make_container_id cookie) ≡ cookie
unfolding cookie_from_container_id make_container_id
cookie_from_container_id-make_container_id cookie h = word_of-byte_of cookie h

-- Data4 of a GUID: eight bytes.
pub record IsGuid (g : Guid) : Type 0 where
  pub eight : length g.data4 ≡ 8
  pub bytes : All (λ b. b < 256) g.data4

guid_of_bytes :
    (d1 d2 d3 a b c d e f g h : ℕ)
    → d1 ≡ 0x408B3FE4
    → d2 ≡ 0x8AC2
    → d3 ≡ 0x4E97
    → prefix_matches (a ∷ b ∷ c ∷ d ∷ e ∷ f ∷ g ∷ h ∷ []) ≡ true
    → All (λ b. b < 256) (e ∷ f ∷ g ∷ h ∷ [])
    → ◌≡◌ {A = Guid}
        (record { data1 = d1; data2 = d2; data3 = d3; data4 = a ∷ b ∷ c ∷ d ∷ e ∷ f ∷ g ∷ h ∷ [] })
        (make_container_id (word_of e f g h))
unfolding prefix_matches make_container_id
guid_of_bytes d1 d2 d3 a b c d e f g h p1 p2 p3 m bytes = ground (arith, word_of_sum e f g h)

from_bytes :
    (d1 d2 d3 : ℕ) (d4 : List ℕ)
    → length d4 ≡ 8
    → All (λ b. b < 256) d4
    → let g : Guid = record { data1 = d1; data2 = d2; data3 = d3; data4 = d4 } in
      cookie_from_container_id g ≢ 0 → g ≡ make_container_id (cookie_from_container_id g)
unfolding cookie_from_container_id
from_bytes d1 d2 d3 (a ∷ b ∷ c ∷ d ∷ e ∷ f ∷ g ∷ h ∷ []) len bytes ne =
    ground (arith, guid_of_bytes d1 d2 d3 a b c d e f g h)
from_bytes d1 d2 d3 _ len bytes ne = absurd (omega arith)

-- Only the container ids of this driver have a cookie: a GUID that gives a non-zero cookie is the
-- one that is made of this cookie.
pub make_container_id-cookie_from_container_id :
    (g : Guid)
    → IsGuid g
    → cookie_from_container_id g ≢ 0
    → g ≡ make_container_id (cookie_from_container_id g)
make_container_id-cookie_from_container_id g v ne =
    from_bytes g.data1 g.data2 g.data3 g.data4 v.eight v.bytes ne
