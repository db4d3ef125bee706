-- ===== src/FrameShare.antt =====
-- driver/src/FrameShare.h and FrameShare.cpp: the shared capture transport.
pub mod Channel
pub mod Publisher
pub mod Init
