-- ===== src/Editor.antt =====
-- core/editor: the masks of the image editor.
pub mod Image
pub mod Mask
mod Examples
