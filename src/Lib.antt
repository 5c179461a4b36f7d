-- ===== src/Lib.antt =====
-- Verification of v2pi, a panel that runs an xray tunnel on a small gateway: the core of its
-- backend, backend/pi_gw_panel.
--
-- The parts, and how they meet. Two health loops write what they measure of the nodes to the table
-- node_health (Health/Table, of nodes/store.py). On each tick of the fast loop (Health/Liveness,
-- of health/liveness.py) a watchdog restarts a crashed xray, an interrupted revocation is taken up
-- again, the active node is checked, and `failover.run` decides whether the tunnel leaves the
-- active node (Health/Failover, of health/failover.py) for the best of the others
-- (Health/Selection, of health/selection.py). The child process belongs to the supervisor
-- (Supervisor, of xray_supervisor/supervisor.py), which the watchdog, the apply of a node and the
-- revocation all call. Subscriptions bring nodes in: the scheduler (Subs/Scheduler, of
-- subs/scheduler.py) starts refreshes, a refresh merges a feed into the table of nodes
-- (Subs/Reconcile, of subs/reconcile.py, over Subs/Nodes, of nodes/store.py) and re-applies the
-- active node if the feed changed it (Subs/Refresh, of subs/service.py). `apply_node` makes a node
-- the tunnel (Apply, of controller.py): it builds the config of xray (XrayConfig/Builder, of
-- xray_config/builder.py, over the checked rules and profiles of XrayConfig/Routing and
-- XrayConfig/Tuning, of xray_config/routing.py and xray_config/tuning.py), hands it to the manager
-- of the config files (XrayConfig/Manager, of xray_config/validate.py), has the supervisor reload
-- and the network applied, keeps the books, and on a failure puts back what was there or closes
-- the gateway. Apply/Boot is what boot does with the rows that an apply left, Restore the import
-- of a backup. The clients of the remote access, and the inbound of the config that they make, are
-- Remote (of rw_inbound.py). The bytes of the tunnel are counted by Stats (of stats/history.py,
-- with the minutes of nodes/store.py), those of the single devices by Devices (of devices.py).
-- What the host's firewall enforces for the state of tunnel and kill switch, and what the panel
-- records of it, is Enforcement (of controller.py). The child that serves DHCP to the clients is
-- Dnsmasq (of net_control/dnsmasq_supervisor.py). The store's transactions are Database (of
-- nodes/store.py). All parts file connection events (Events, of net_control/events.py and
-- nodes/store.py). Auth and Auth/Access are auth/service.py, auth/auth.py, auth/tokens.py and the
-- gates of api/deps.py. Node is the Node of models.py, Settings the reads of the settings table,
-- and Base holds the shared helpers. Tests runs the definitions on small data.
--
-- How the code is read.
--   State is passed on: an operation is a function from the state before to the state after, and
--   what runs under one lock or in one transaction is one step. An exception is a value: `none`
--   of an Option, or a constructor such as `raised`.
--   What a step asks of the operating system, of another process or of a third party is an
--   argument of it (records called Env, StartEnv, WaitEnv, ProbeEnv, TickEnv). A call that takes
--   seconds, such as a preflight, gives the store as it stands when the call returns, so what
--   other threads write meanwhile is covered. scrypt and SHA-256 are parameters, and so are
--   Python's ipaddress, `int`, `str.lower` and the digits of `re`, and the floating-point stride of
--   the traffic graph.
--   A file is what a reader finds in it together with all that a power cut may leave of it: a write
--   whose directory was not synced leaves the old contents possible, also where `_fsync_dir` answers
--   true since the file system has no such sync (XrayConfig/Manager). A theorem on
--   sequences ranges over calls, power cuts and changes from outside.
--   The config of xray is a record of the keys that the builder decides on; a key with a constant value
--   is not spelled out.
--   Times are whole seconds on ℕ, in Subs/Scheduler hundredths of a second, so that a jitter in
--   percent is exact; `now - t < w` is written `now < t + w`, which also covers a clock that was set
--   back. ISO stamps are read as their second. Durations and numbers in settings are natural
--   numbers.
--   A text of the settings table is a Row: no text, a number, another text, or an exception.
--   Python's dicts of rows are lists; of two rows with one key the later counts, as in a dict
--   comprehension.
--   A record that is written and then read back is not stored, stored without being proven, or proven
--   (Restore).
--   Rows of the nodes table are nodes that were normalized when they were made.
--
-- Loops are structural recursion on the list that the code iterates over, so nothing has fuel. The
-- readiness loop of the supervisor runs over the list of its turns, which stands for its time
-- budget.
--
-- Not modelled: sockets, subprocesses, HTTP, gRPC and SQL as such; the asyncio tasks and thread
-- pools that drive the loops; the feed parsers, the scrubbing of xray's messages, the run of a
-- revocation, the network provisioning, the HTTP routes, backups, updates and the sampling of
-- statistics; the frontend.
pub mod Base
pub mod Settings
pub mod Events
pub mod Node
pub mod Supervisor
pub mod Health
pub mod Subs
pub mod Tests
pub mod XrayConfig
pub mod Apply
pub mod Restore
pub mod Remote
pub mod Database
pub mod Dnsmasq
pub mod Devices
pub mod Stats
pub mod Auth
pub mod Enforcement
