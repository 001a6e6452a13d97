-- ===== src/Shared.antt =====
-- internal/platform/shared: text, name and namespace helpers that every part of the worker uses.
pub mod Unique
pub mod Strategy
pub mod Namespace
pub mod KubeName
mod Examples
