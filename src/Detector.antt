-- ===== src/Detector.antt =====
-- ai/src/RknnDetector.cpp: what the detector makes of the output tensors of the model.
pub mod Nms
pub mod Tensor
pub mod Rows
pub mod Letterbox
pub mod Labels
pub mod Setup
pub mod Infer
