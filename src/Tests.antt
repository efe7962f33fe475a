-- ===== src/Tests.antt =====
-- The theorems of the library applied to concrete inputs.
mod Fixtures
mod FixedPoint
mod Frames
mod Publishing
mod Receiving
mod Driving
mod Ending
mod Sampling
mod Loading
mod Reading
mod Mounting
mod Counting
mod Fields
mod Preparing
