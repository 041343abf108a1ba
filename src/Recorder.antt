-- ===== src/Recorder.antt =====
-- services/hikvision_service.py: the requests to the video recorders.
pub mod Element
pub mod Stream
pub mod Mock
pub mod Channel
pub mod Resolution
pub mod Disks
pub mod Check
pub mod Clock
