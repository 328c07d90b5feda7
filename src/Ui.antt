-- ===== src/Ui.antt =====
-- internal/ui: the control panel.
pub mod Flow
pub mod RateLimit
pub mod Api
pub mod Streaming
pub mod RunSlot
pub mod Commands
pub mod Udp
pub mod Hub
pub mod Health
pub mod Main
mod Tests
