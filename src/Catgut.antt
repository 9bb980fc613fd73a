-- ===== src/Catgut.antt =====
-- The buffers of go/lib/delta/catgut: a slice in two parts, and the ring buffer that gives it.
pub mod Slice
pub mod RingBuffer
mod Tests
