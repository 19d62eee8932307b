-- ===== src/Screen.antt =====
-- The screen (internal/core/screen_capture.go): the pixels that are drawn, the colour of the boxes,
-- and the capture.
pub mod Raster
pub mod Color
pub mod Capture
