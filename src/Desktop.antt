-- ===== src/Desktop.antt =====
-- internal/service/desktop: the hubs that push changes of runs to the desktop's window.
pub mod RunState
pub mod RunStream
pub mod ListChange
