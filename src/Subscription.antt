-- ===== src/Subscription.antt =====
-- internal/subscription/service.go: the feeds of a subscription and its totals.
pub mod Lines
pub mod Totals
pub mod Feed
pub mod Safe
pub mod Order
pub mod Choice
pub mod Mirror
pub mod Cleanup
