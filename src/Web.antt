-- ===== src/Web.antt =====
-- internal/web: the configuration that the console exchanges (Dto) and the server (Server).
pub mod Dto
pub mod Server
