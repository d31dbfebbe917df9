-- ===== src/Examples.antt =====
-- Runs of the model at concrete inputs, and the theorems applied to such inputs.
mod Core
mod Sessions
mod Lives
mod Environs
mod Msdps
mod Others
mod Peers
mod Rot13s
mod Zlibs
