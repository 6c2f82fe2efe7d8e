-- ===== src/Resp.antt =====
-- src/redis/resp.rs: the RESP wire protocol. Values, the encoder and the resumable decoder.
pub mod Value
pub mod Number
pub mod Encoder
pub mod Decoder
pub mod Progress
pub mod Lines
pub mod Chunks
pub mod Limits
pub mod RoundTrip
pub mod Resume
mod Runs
