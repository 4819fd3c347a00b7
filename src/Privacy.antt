-- ===== src/Privacy.antt =====
-- internal/service/privacy: who may see what of a user. types.go stands in Types, service.go in
-- Service, and the proofs in the other modules.
pub mod Types
pub mod Service
mod Tests
