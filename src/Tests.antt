-- ===== src/Tests.antt =====
-- The data and the runs at which the theorems are applied.
mod Data
mod Nodes
mod Failover
mod Liveness
mod Supervisor
mod Subs
mod Events
mod Auth
mod Scheduler
mod Enforcement
mod Config
mod Apply
mod Builder
mod Stats
mod Restore
mod Remote
mod Database
mod Dnsmasq
