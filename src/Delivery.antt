-- ===== src/Delivery.antt =====
-- internal/delivery/delivery.go: which domains send directly and which through a relay.
pub mod Tests
pub mod Relay
pub mod Engine
pub mod Sound
