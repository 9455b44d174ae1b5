-- ===== src/Api.antt =====
-- internal/api: what a request passes on its way to a handler of the HTTP API.
pub mod Middleware
