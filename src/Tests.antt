-- ===== src/Tests.antt =====
-- Concrete runs of the model, and each theorem at an input that meets its hypotheses.
pub mod World
mod Delivery
mod DeadLetters
mod Streaming
mod Services
mod Retries
mod Triage
mod Decoding
mod Masking
mod Values
mod Backfilling
mod Dashboard
mod Searching
mod Sinking
