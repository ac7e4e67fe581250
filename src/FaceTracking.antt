-- ===== src/FaceTracking.antt =====
-- Face tracking: the shapes of a frame, in core/src/common/facetracking/UpstreamShapeMap.h, the reader
-- of frames FaceFrameReader and the worker of FacetrackingDriverModule in
-- modules/facetracking/src/driver.
pub mod Shapes
pub mod Worker
mod Tests
