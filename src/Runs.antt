-- ===== src/Runs.antt =====
-- Concrete runs of the models, and the theorems at concrete inputs.
mod Packets
mod Streams
mod Paths
mod Transfer
mod Acks
mod Manager
mod Wheel
mod Windows
mod Reassembly
mod Retry
