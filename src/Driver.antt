-- ===== src/Driver.antt =====
-- driver/src/Driver.cpp without the device context: the entry points, the callbacks about modes, the
-- control interface, the workers of swap-chains, and the log.
pub mod Modes
pub mod Ioctl
pub mod SwapChain
pub mod Log
pub mod Assign
pub mod Entry
pub mod Direct3D
