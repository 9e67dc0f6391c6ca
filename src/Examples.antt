-- ===== src/Examples.antt =====
-- The theorems at concrete inputs, with the libraries instantiated.
mod Codec
mod Instances
mod Inputs
mod Stores
mod Messenger
mod Transport
mod Server
mod Routing
mod Reach
mod Requests
mod Failures
mod Early
mod Network
mod Sealed
mod Parties
mod Servers
mod Startup
mod Starts
mod Lifecycle
mod Held
mod Twice
mod Keys
mod Signatures
mod FullDisk
mod Identity
mod Players
mod Messages
