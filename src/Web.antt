-- ===== src/Web.antt =====
-- src/web: who may use the administration. The libraries fastify and node:crypto are parameters.
pub mod Login
pub mod Sessions
