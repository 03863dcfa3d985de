-- ===== src/Tests.antt =====
-- Runs of the model on concrete inputs, and the instances of the theorems.
mod Kernel
mod Loss
mod Receiver
mod Packets
mod Traffic
mod Statistics
mod Tables
mod Config
mod Plotting
mod Commands
mod Summary
mod Rendering
mod Files
