-- ===== src/Profiles.antt =====
-- The profile service of semestral (semestral/internal/profiles) and the tokens and interceptors of
-- semestral/internal/auth.
pub mod Tokens
pub mod Interceptor
pub mod Repository
pub mod Service
pub mod Examples
