-- ===== src/Auth.antt =====
-- Authentication and authorization of requests.
pub mod Claims
pub mod Security
pub mod Deps
pub mod Tenancy
