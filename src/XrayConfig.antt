-- ===== src/XrayConfig.antt =====
-- xray_config/*.py: the config that xray runs, how it is built, and the files that hold it.
pub mod Manager
pub mod Routing
pub mod Tuning
pub mod Builder
