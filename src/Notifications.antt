-- ===== src/Notifications.antt =====
-- src/kernel/user/notifications.c: mailboxes, and raisers that send notifications to them.
pub mod Defs
pub mod Boxes
pub mod Delivery
mod Tests
