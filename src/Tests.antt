-- ===== src/Tests.antt =====
-- Small instances of the parameters, and the theorems at concrete inputs.
mod Instances
mod Data
mod Witnesses
mod Collections
mod Strings
mod Requests
mod Cores
mod Servers
mod Bitmaps
mod Nans
