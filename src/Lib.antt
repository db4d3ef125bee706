-- ===== src/Lib.antt =====
-- The nyan Real virtual display driver: a Windows user-mode driver that shows up to four monitors
-- which have no hardware behind them. This library models its logic and proves it correct.
--
-- How the parts interact. A client sends control requests (driver/src/Driver.cpp,
-- NyanVddIoDeviceControl). They read and change the one device context, a table of four monitor slots
-- with a watchdog and the adapter's state (Driver.cpp, IndirectDeviceContext). A plug builds an EDID
-- for the monitor (driver/src/Edid.cpp), and the callbacks of the framework resolve that EDID back to
-- the slot to report the monitor's modes. A privileged client may open a capture channel on a monitor
-- (driver/src/FrameShare.cpp), which the worker of the monitor's swap-chain then fills. The clients
-- are the control tool (cli/nyanvddctl.cpp) and a reader of captures
-- (tools/dirty-probe/capture_bench.cpp); include/nyanvdd_protocol.h is the contract with them.
--
-- Which file models which part:
--   Base              tests on numbers, lists as arrays, bits and machine widths
--   Protocol          include/nyanvdd_protocol.h; Protocol/ContainerId the container id helpers
--   Edid              driver/src/Edid.h and Edid.cpp: Mode (clocks, the accepted range), ModeList,
--                     Size, Dtd (the timing descriptor), Limits (range limits), Block (BuildEdid)
--   FrameShare        driver/src/FrameShare.cpp: Channel (FrameChannel), Init and Publisher
--                     (FramePublisher)
--   Device            IndirectDeviceContext of driver/src/Driver.cpp: Slots (lookups), Invariant,
--                     Plug, Unplug, Report (List, FillStatus, SetActiveMonitors), Capture, Watchdog,
--                     Adapter, and System, the threads of the device as one transition system
--   Driver            Modes (the callbacks about modes), Ioctl (the control requests; Registry and
--                     Refine are an abstract view of them), SwapChain (the phases of
--                     SwapChainProcessor, the threads that stop it, and RunCore), Assign (Start, the
--                     references, and IndirectMonitorContext, as one transition system with the
--                     workers), Entry (NyanVddDeviceAdd, the
--                     cleanup of files, CaptureAuthorize, and Teardown, the destructors),
--                     Direct3D (Direct3DDevice), Log (NyanVddLog)
--   Cli               cli/nyanvddctl.cpp: Console (the session check), DevicePath, Displays,
--                     Commands, Plug, Lifetime (the device node), Main; Drive runs it on the driver
--   Probe             tools/dirty-probe/capture_bench.cpp: Reader (Import, Poll) and Connect
--                     (Granted runs it on the driver),
--                     Bench (RunCaptureBench, with the Marker of a paint);
--                     tools/dirty-probe/dirty_probe.cpp: Arguments, with its Words, Monitor, Frames
--                     (the frame records and their hash) and Summary (what is printed)
--   Ring              the publisher of FrameShare.cpp and the reader of capture_bench.cpp in every
--                     interleaving, over the keyed mutexes of the shared textures
--   Tests             runs at concrete inputs
--
-- How state and operations correspond. A definition has the name of the function of the source in
-- snake case (Plug is plug, SetWatchdog is set_watchdog). The device is a record with the fields of
-- IndirectDeviceContext; an operation takes it and returns its status, its outputs and the new
-- record. The fields calls, next_binding and next_channel have no counterpart: the first records the
-- calls of IddCx about monitors, the others number the shared objects. A shared pointer is a
-- reference into one of two heaps, so that a slot and a worker share a binding. Each region under the
-- lock is one function, and what other threads do between two regions is a parameter, a function on
-- the device. For a monitor's swap-chains (Driver/Assign) the
-- calls that a thread is still going to make after it left the lock are counted in the worker that
-- they are for. Answers of the framework, the registry, the clock and the impersonated access check are
-- parameters too; handles are numbers.
--
-- Numbers are natural; uint32_t and uint64_t arithmetic that can wrap has its modulus written out, and
-- the functions of Edid/Mode/Range show where it does not wrap. The loops are over lists that are
-- given (four slots, eleven modes, the rounds of the watchdog thread, the steps of a worker), or
-- count down (the three attempts of Publish). Only the control tool's loop over the random device has
-- fuel, for five numbers: it ends at the first number that is not 0, and the theorem about the plug
-- command asks for one among the five.
--
-- The control tool and the probe talk to a driver of any state through one function, DeviceIoControl;
-- Cli/Drive puts the modelled driver behind it. A session records the requests that were sent and what
-- was said, a constructor of Message for each format of a line. Texts are lists of UTF-16 code units.
-- What Windows and the C library answer (sessions, displays, handles, numbers read from a text) is a
-- record of parameters.
--
-- In Ring a texture holds one number, the contents of the frame that was copied to it. A step is a call of
-- Publish or one round of Poll's loop; the mutexes may time out at any moment, so a step stands for the
-- finer interleavings too. The number of a publication stays below 2^63, where LONG64 does not wrap.
-- std::sort is insertion sort; the doubles of Percentile are numbers of units of 2^-53 with the rounding as
-- a parameter. The loop of the benchmark is over the rounds that it observes.
--
-- Not modelled: the registration of callbacks, the set-up of Direct3D and of Windows Graphics Capture, and the
-- stimulus window, the cursor motion and the process times of the tools (tools/dirty-probe), which are calls
-- of Windows alone; and the rates that they print in floating point.
pub mod Base
pub mod Protocol
pub mod FrameShare
pub mod Edid
pub mod Device
pub mod Driver
pub mod Cli
pub mod Probe
pub mod Ring
mod Tests
