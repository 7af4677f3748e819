-- ===== src/Tests.antt =====
-- Concrete instances of the parameters, and the theorems at concrete inputs.
mod World
mod Proto
mod Ca
mod Server
mod Agent
mod Workload
mod Api
mod Mains
mod Rotation
mod Encoding
mod System
mod Requested
