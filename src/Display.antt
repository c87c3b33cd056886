-- ===== src/Display.antt =====
-- src/display: where a wallpaper is drawn on a display.
pub mod Layout
