-- ===== src/Realtime.antt =====
-- Realtime events: publishing, connections and delivery (backend/src/realtime/hub.py, publisher.py).
mod Publish
unfoldable pub use Publish.*
pub mod Hub
pub mod Registry
pub mod Delivery
