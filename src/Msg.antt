-- ===== src/Msg.antt =====
-- src/hh_dp_msg.c
pub mod Request
pub mod Build
pub mod Response
pub mod Stays
