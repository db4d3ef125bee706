-- ===== src/Probe/Frames.antt =====
-- The frame records of dirty-probe (tools/dirty-probe/dirty_probe.cpp): the handler of an arrived frame,
-- with the accumulation of its dirty regions and the FNV-1a hash of its pixels.
pub mod Hash
pub mod Change
use nyan_real_vdd.Base.{
  ℕ, zero, suc, ◌+◌, ◌-◌, ◌*◌, ◌%◌, ◌^◌, ◌≡◌, Bool, true, false, not, ◌&&◌, Option, none, some,
  List, [], ◌∷◌, ◌++◌, get_or, ◌==◌, if◌then◌else◌,
}
use nyan_real_vdd.Base.Bits.{u32, u64}
use nyan_real_vdd.Base.Xor.{bit_xor}
use nyan_real_vdd.Probe.Arguments.{ℤ, pos, negsuc}

-- RECT, and RectInt32.
pub record Rect : Type 0 where
  pub left : ℤ
  pub top : ℤ
  pub right : ℤ
  pub bottom : ℤ

pub record Region : Type 0 where
  pub x : ℤ
  pub y : ℤ
  pub width : ℕ
  pub height : ℕ

-- FrameRecord, without the time.
pub record FrameRecord : Type 0 where
  pub rect_count : ℕ
  pub dirty_px : ℕ
  pub bounding_box : Rect
  pub has_dirty_info : Bool
  pub hash : ℕ
  pub hash_valid : Bool

-- `X + Width`, for a width that is not negative
abbrev pub plus : ℤ → ℕ → ℤ
plus (pos a) n = pos (a + n)
plus (negsuc a) zero = negsuc a
plus (negsuc zero) (suc n) = pos n
plus (negsuc (suc a)) (suc n) = plus (negsuc a) n

abbrev pub native : Region → Rect
native r = record { left = r.x; top = r.y; right = plus r.x r.width; bottom = plus r.y r.height }

-- The body of the loop over the dirty regions; `union` is UnionRect.
unfoldable pub add_region : (Rect → Rect → Rect) → Bool → Region → FrameRecord → FrameRecord
add_region union first r f = record f {
  rect_count = u32 (suc f.rect_count);
  dirty_px = u64 (f.dirty_px + r.width * r.height);
  bounding_box = if first then native r else union f.bounding_box (native r);
}

unfoldable pub add_regions : (Rect → Rect → Rect) → Bool → List Region → FrameRecord → FrameRecord
add_regions union first [] f = f
add_regions union first (r ∷ rs) f = add_regions union false rs (add_region union first r f)

-- The FNV-1a offset basis and prime.
abbrev pub fnv_basis : ℕ
fnv_basis = 14695981039346656037

abbrev pub fnv_prime : ℕ
fnv_prime = 1099511628211

-- `Hash = (Hash ^ Row[x]) * 1099511628211ull`
unfoldable pub hash_byte : ℕ → ℕ → ℕ
hash_byte hash byte = u64 (bit_xor hash byte * fnv_prime)

-- A mapped texture: its bytes, and how many there are from one row to the next.
pub record Mapped : Type 0 where
  pub bytes : ℕ → ℕ
  pub row_pitch : ℕ

-- `left` bytes from `at` on.
unfoldable pub hash_row : (ℕ → ℕ) → ℕ → ℕ → ℕ → ℕ
hash_row bytes zero at hash = hash
hash_row bytes (suc left) at hash = hash_row bytes left (suc at) (hash_byte hash (bytes at))

-- `left` rows from row `y` on, of `row_bytes` bytes each.
unfoldable pub hash_rows : Mapped → ℕ → ℕ → ℕ → ℕ → ℕ
hash_rows m row_bytes zero y hash = hash
hash_rows m row_bytes (suc left) y hash =
    hash_rows m row_bytes left (suc y) (hash_row m.bytes row_bytes (y * m.row_pitch) hash)

unfoldable pub hash_frame : Mapped → ℕ → ℕ → ℕ
hash_frame m width height = hash_rows m (width * 4) height 0 fnv_basis

-- The width, the height and the format of a texture.
pub record TextureSize : Type 0 where
  pub width : ℕ
  pub height : ℕ
  pub format : ℕ

-- A frame: its dirty regions, the size of its texture where the surface gives one, and, of the staging texture,
-- whether a new one is created and its contents where Map succeeds.
pub record Arrived : Type 0 where
  pub regions : List Region
  pub texture : Option TextureSize
  pub creates : Bool
  pub mapped : Option Mapped

abbrev pub new_record : FrameRecord
new_record = record {
  rect_count = 0;
  dirty_px = 0;
  bounding_box = record { left = pos 0; top = pos 0; right = pos 0; bottom = pos 0 };
  has_dirty_info = false;
  hash = 0;
  hash_valid = false;
}

-- The records, and the staging texture that is kept from frame to frame.
pub record Capture : Type 0 where
  pub records : List FrameRecord
  pub staging : Option TextureSize

-- The texture that is there serves where it has the frame's width, height and format.
abbrev pub kept_staging : Option TextureSize → TextureSize → Option TextureSize
kept_staging none desc = none
kept_staging (some have) desc =
    if have.width == desc.width && (have.height == desc.height && have.format == desc.format)
    then some have
    else none

abbrev pub or_created : Option TextureSize → Bool → TextureSize → Option TextureSize
or_created (some have) creates desc = some have
or_created none creates desc = if creates then some desc else none

-- The staging texture for a frame.
unfoldable pub staging_for : Option TextureSize → Bool → TextureSize → Option TextureSize
staging_for staging creates desc = or_created (kept_staging staging desc) creates desc

abbrev pub with_regions : (Rect → Rect → Rect) → Bool → Arrived → FrameRecord → FrameRecord
with_regions union true a f = add_regions union true a.regions (record f { has_dirty_info = true })
with_regions union false a f = f

-- The contents are hashed where there is a staging texture and it can be mapped.
abbrev pub hashed : Option TextureSize → Option Mapped → TextureSize → FrameRecord → FrameRecord
hashed (some staging) (some m) desc f = record f {
  hash = hash_frame m desc.width desc.height;
  hash_valid = true;
}
hashed (some staging) none desc f = f
hashed none mapped desc f = f

-- `if (HashFrames)` and its body: the staging texture, and the record.
unfoldable pub read_back :
    Bool
    → Option TextureSize
    → Arrived
    → Option TextureSize
    → FrameRecord
    → Option TextureSize × FrameRecord
read_back false texture a staging f = (staging, f)
read_back true none a staging f = (staging, f)
read_back true (some desc) a staging f =
    let next = staging_for staging a.creates desc in (next, hashed next a.mapped desc f)

-- The handler of FrameArrived: the record of the new frame comes last. `none` is no frame.
unfoldable pub frame_arrived :
    (Rect → Rect → Rect) → Bool → Bool → Option Arrived → Capture → Capture
frame_arrived union dirty_supported hash_frames none c = c
frame_arrived union dirty_supported hash_frames (some a) c =
    let (staging, f) =
      read_back hash_frames a.texture a c.staging
        (with_regions union dirty_supported a new_record) in
    record { records = c.records ++ (f ∷ []); staging = staging }
