-- ===== src/Tests.antt =====
-- Runs of the operations at fixed inputs, and each theorem that has conditions applied to one.
mod Transport
mod Control
mod Buffer
mod Sound
mod Picture
mod Network
mod Device
mod Signalling
