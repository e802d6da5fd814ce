-- ===== src/Kapook.antt =====
-- internal/kapook: goals, their movements of money, and the worker.
pub mod Window
pub mod Goals
pub mod Transactions
pub mod Service
pub mod Worker
