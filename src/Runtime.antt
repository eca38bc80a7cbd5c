-- ===== src/Runtime.antt =====
-- lbe_guard_inspector/runtime: modes, authorization, tools and completion.
pub mod Mode
pub mod Authorization
pub mod Tools
pub mod Completion
pub mod Producers
mod Examples
mod CompletionExamples
