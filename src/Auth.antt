-- ===== src/Auth.antt =====
-- backend/app/auth.py: the limit on login attempts, and the sessions with their cookies.
pub mod Limiter
pub mod Session
