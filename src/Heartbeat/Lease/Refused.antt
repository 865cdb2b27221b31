-- ===== src/Heartbeat/Lease/Refused.antt =====
-- What `Heartbeat` of apps/license-api/internal/service/heartbeat.go refuses: a device of a licence
-- that is not active.
