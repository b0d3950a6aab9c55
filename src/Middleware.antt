-- ===== src/Middleware.antt =====
-- internal/middleware
pub mod RateLimiter
pub mod RateLimit
pub mod ErrorHandler
pub mod Gin
pub mod RequestId
pub mod Chain
pub mod Builder
pub mod AuditLog
