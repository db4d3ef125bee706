-- ===== src/FrameShare/Init.antt =====
-- FramePublisher::Init (driver/src/FrameShare.cpp): the source formats it takes, and what it writes into the
-- metadata. The three textures, their mutexes and handles are calls of Direct3D, four for each.
use nyan_real_vdd.Base.{
  ℕ, Bool, not, ◌||◌, Option, none, some, List, [], ◌∷◌, ltb, ◌==◌, if◌then◌else◌,
}
use nyan_real_vdd.Protocol.{max_dimension}
use nyan_real_vdd.FrameShare.Channel.{Channel, ready, exchange_waiting}
use nyan_real_vdd.FrameShare.Publisher.{Publisher}

-- DXGI_FORMAT_B8G8R8A8_UNORM
abbrev pub format_bgra : ℕ
format_bgra = 87

abbrev pub invalid_argument : ℕ
invalid_argument = 0x80070057

-- D3D11_TEXTURE2D_DESC of the source.
pub record TextureDesc : Type 0 where
  pub width : ℕ
  pub height : ℕ
  pub format : ℕ
  pub array_size : ℕ
  pub mip_levels : ℕ
  pub samples : ℕ
  pub bind_flags : ℕ
  pub misc_flags : ℕ

-- A format that Init refuses.
abbrev pub is_refused : TextureDesc → Bool
is_refused s =
    not (s.format == format_bgra)
    || (not (s.array_size == 1)
        || (not (s.mip_levels == 1)
            || (not (s.samples == 1)
                || (s.width == 0
                    || (s.height == 0
                        || (ltb max_dimension s.width || ltb max_dimension s.height))))))

-- The first error of the calls that make the textures, in their order.
unfoldable pub first_error : List (Option ℕ) → Option ℕ
first_error [] = none
first_error (none ∷ rest) = first_error rest
first_error (some e ∷ rest) = some e

abbrev pub new_publisher : TextureDesc → Publisher
new_publisher s = record {
  width = s.width;
  height = s.height;
  format = s.format;
  next = 0;
  sequence = 0;
}

-- Init: the error, and the channel.
unfoldable pub init : List (Option ℕ) → TextureDesc → ℕ → Channel → Option ℕ × Channel
init calls s luid c =
    if is_refused s then (some invalid_argument, c) else elim (first_error calls) [
      | some e ↦ (some e, c)
      | none ↦ (
        none,
        record c {
          meta = record (c.meta) {
            width = s.width;
            height = s.height;
            adapter_luid = luid;
            source_bind_flags = s.bind_flags;
            source_misc_flags = s.misc_flags;
            state = exchange_waiting ready c.meta.state;
          };
        },
      )
    ]
