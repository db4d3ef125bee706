-- ===== src/Edid.antt =====
-- driver/src/Edid.h and Edid.cpp: display modes and EDID synthesis.
pub mod Mode
pub mod Size
pub mod ModeList
pub mod Dtd
pub mod Limits
pub mod Block
