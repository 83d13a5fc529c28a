-- ===== src/Tests.antt =====
-- The theorems applied to a small installation.
pub mod Data
pub mod Facts
pub mod Mail
mod Requests
mod ServerExamples
mod GoogleExamples
mod ApiExamples
mod StoreExamples
mod WorkerExamples
