-- ===== src/Driver/SwapChain/Core.antt =====
-- SwapChainProcessor::RunCore (driver/src/Driver.cpp): one pass of its loop, which follows the monitor's
-- capture binding and publishes the frame that it acquired, and the end of the loop. The channels are a heap.
pub mod Laws
use nyan_real_vdd.Base.{
  ℕ, Bool, true, false, not, ◌&&◌, ◌||◌, Option, none, some, List, [], ◌∷◌, ◌==◌, if◌then◌else◌,
}
use nyan_real_vdd.Device.{update}
use nyan_real_vdd.FrameShare.Channel.{Channel, active, stop, fail}
use nyan_real_vdd.FrameShare.Init.{TextureDesc, init, new_publisher}
use nyan_real_vdd.FrameShare.Publisher.{
  Publisher, PublishEnv, Published, published, nothing_done, access_lost, sync_error, publish,
}

-- The local variables `Channel` and `Publisher`, and the channels.
pub record Core : Type 0 where
  pub channel : Option ℕ
  pub publisher : Option Publisher
  pub channels : ℕ → Option Channel

-- E_ACCESSDENIED, E_OUTOFMEMORY and DXGI_ERROR_ACCESS_LOST
abbrev pub denied : ℕ
denied = 0x80070005

abbrev pub out_of_memory : ℕ
out_of_memory = 0x8007000E

abbrev pub lost : ℕ
lost = 0x887A0026

-- An acquired frame: whether its surface is protected, the error of the query for its texture, the
-- texture, whether `new` succeeds, the calls of Init, the adapter, and the environment of Publish.
pub record Frame : Type 0 where
  pub is_protected : Bool
  pub texture_error : Option ℕ
  pub desc : TextureDesc
  pub allocated : Bool
  pub init_calls : List (Option ℕ)
  pub luid : ℕ
  pub publish : PublishEnv

abbrev pub map_channel : (Channel → Channel) → Option Channel → Option Channel
map_channel f none = none
map_channel f (some c) = some (f c)

-- A call on the channel with that reference.
abbrev pub at_channel : ℕ → (Channel → Channel) → Core → Core
at_channel k f s = record s { channels = update s.channels k (map_channel f (s.channels k)) }

abbrev pub stop_at : Option ℕ → Core → Core
stop_at none s = s
stop_at (some k) s = at_channel k stop s

-- The publisher's destructor stops its channel, which is the one that is followed.
abbrev pub reset_publisher : Option Publisher → Core → Core
reset_publisher none s = s
reset_publisher (some p) s = record (stop_at s.channel s) { publisher = none }

abbrev pub same_ref : Option ℕ → Option ℕ → Bool
same_ref none none = true
same_ref none (some k) = false
same_ref (some j) none = false
same_ref (some j) (some k) = j == k

abbrev pub is_live : Option Channel → Bool
is_live none = false
is_live (some c) = active c

-- `if (Requested && !Requested->Active()) Requested.reset();`
abbrev pub live_request : Core → Option ℕ → Option ℕ
live_request s none = none
live_request s (some k) = if is_live (s.channels k) then some k else none

-- The binding's channel takes the place of the one that was followed.
unfoldable pub follow : Option ℕ → Core → Core
follow requested s =
    let live = live_request s requested in
    if same_ref live s.channel then s else record (reset_publisher s.publisher s) { channel = live }

-- FAILED of what Publish returns; S_FALSE is no failure.
abbrev pub publish_error : Published → Option ℕ
publish_error published = none
publish_error nothing_done = none
publish_error access_lost = some lost
publish_error (sync_error e) = some e

abbrev pub fail_if : Option ℕ → ℕ → Core → Core
fail_if none k s = s
fail_if (some e) k s = at_channel k (fail e) s

-- Publish on the channel `c` of reference `k`, and Fail after an error.
unfoldable pub publish_frame : Frame → ℕ → Channel → Publisher → Core → Core
publish_frame f k c p s =
    let (result, p', c') = publish f.publish p c in
    fail_if (publish_error result) k
      (record s { publisher = some p'; channels = update s.channels k (some c') })

-- Init of a new publisher, which stays the publisher when Init fails.
unfoldable pub init_frame : Frame → ℕ → Channel → Core → Core
init_frame f k c s =
    let (error, c') = init f.init_calls f.desc f.luid c in
    let p = new_publisher f.desc in
    let s' = record s { publisher = some p; channels = update s.channels k (some c') } in
    elim error [ some e ↦ fail_if (some e) k s' | none ↦ publish_frame f k c' p s' ]

-- The texture was got: with or without a publisher.
abbrev with_publisher : Frame → ℕ → Channel → Option Publisher → Core → Core
with_publisher f k c (some p) s = publish_frame f k c p s
with_publisher f k c none s =
    if f.allocated then init_frame f k c s else fail_if (some out_of_memory) k s

abbrev with_texture : Option ℕ → Frame → ℕ → Channel → Core → Core
with_texture (some e) f k c s = fail_if (some e) k s
with_texture none f k c s = with_publisher f k c s.publisher s

-- `if (Channel && Channel->Active())` and its body.
unfoldable pub capture_at : Frame → ℕ → Option Channel → Core → Core
capture_at f k none s = s
capture_at f k (some c) s =
    if not (active c)
    then s
    else if f.is_protected
    then fail_if (some denied) k s
    else with_texture f.texture_error f k c s

abbrev pub capture_frame : Frame → Option ℕ → Core → Core
capture_frame f none s = s
capture_frame f (some k) s = capture_at f k (s.channels k) s

-- What the swap-chain answers: no frame yet, with the outcome of the wait; a frame, and whether it is
-- finished without an error; or an error.
pub data Acquired : Type 0 where
  pending_goes_on pending_ends : Acquired
  frame : Frame → Bool → Acquired
  acquire_failed : Acquired

unfoldable pub on_acquired : Acquired → Core → Bool × Core
on_acquired pending_goes_on s = (true, s)
on_acquired pending_ends s = (false, s)
on_acquired (frame f finished) s = (finished, capture_frame f s.channel s)
on_acquired acquire_failed s = (false, s)

-- A pass of the loop: whether the loop goes on. The answers of the system are the terminate event, the
-- channel of the binding, and the swap-chain's answer.
pub record PassEnv : Type 0 where
  pub terminated : Bool
  pub requested : Option ℕ
  pub acquired : Acquired

unfoldable pub pass : PassEnv → Core → Bool × Core
pass env s =
    if env.terminated then (false, s) else on_acquired env.acquired (follow env.requested s)

-- The end of RunCore, with the destructor of the publisher.
unfoldable pub leave : Core → Core
leave s = let stopped = stop_at s.channel s in reset_publisher stopped.publisher stopped

-- RunCore over the answers of its passes: `none` where the loop still goes on after them.
unfoldable pub run_core : List PassEnv → Core → Option Core
run_core [] s = none
run_core (env ∷ envs) s =
    let (goes_on, s') = pass env s in
    let rest = run_core envs s' in if goes_on then rest else some (leave s')
