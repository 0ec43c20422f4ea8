-- ===== src/Comm.antt =====
-- src/hh_dp_comm.c
pub mod Socket
pub mod Still
pub mod Send
pub mod Connect
pub mod Recv
