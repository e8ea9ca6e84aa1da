-- ===== src/Daemon.antt =====
-- internal/daemon: the log of route changes (route_events.go) and the routes that are refused
-- (protected_routes.go); with them the jitter of reconnects (internal/backoff/backoff.go) and the
-- limiter of log lines (internal/stack/ratelimit.go).
pub mod Events
pub mod EventLog
pub mod Protected
pub mod Pacing
mod Samples
