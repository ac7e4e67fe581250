-- ===== src/Shmem.antt =====
-- The shared memory segments of core/src/common/Protocol.h: the seqlock of their slots, the ring of
-- driver poses and the ring of face tracking frames.
pub mod Seqlock
pub mod PoseRing
pub mod FaceFrames
mod Tests
