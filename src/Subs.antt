-- ===== src/Subs.antt =====
-- backend/pi_gw_panel/subs: subscriptions, whose feeds are merged into the node table.
pub mod Nodes
pub mod Reconcile
pub mod Scheduler
pub mod Refresh
