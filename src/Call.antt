-- ===== src/Call.antt =====
-- The calls of src/call.c: Alloc sets one up, Events holds the handlers that the SIP stack and the
-- RTP socket call, and Release is the destructor.
pub mod Release
pub mod Alloc
pub mod Events
pub mod Ownership
