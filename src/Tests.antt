-- ===== src/Tests.antt =====
-- Small devices, and the theorems at inputs that exercise the code.
mod Devices
mod Timing
mod Address
mod Context
mod Order
mod Mapping
mod Commands
mod Zones
mod Units
mod Keys
mod Bits
