-- ===== src/Models.antt =====
-- internal/platform/models, and the error values that the worker tells apart.
pub mod Failure
pub mod Payload
pub mod Operation
pub mod Service
pub mod Rule
pub mod Runtime
