-- ===== src/Examples.antt =====
-- The theorems at concrete rings, and runs of the modelled functions.
mod Data
mod Preparing
mod Completing
mod Registering
mod Mapping
mod Waiting
mod Sharing
mod Transferring
mod Entering
mod Advancing
mod Looping
mod Submitting
mod Finding
mod Stopping
mod Listening
mod Connecting
mod Creating
mod Serving
mod Encoding
