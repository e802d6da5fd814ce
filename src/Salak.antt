-- ===== src/Salak.antt =====
-- internal/salak: products, draw days, ticket ranges and holdings.
pub mod Letters
pub mod Repository
pub mod Service
pub mod Catalogue
