-- ===== src/Tests.antt =====
-- Runs of the model on small inputs, and the theorems at inputs that meet their hypotheses.
mod Samples
mod Terminal
mod Queue
mod Command
mod Client
mod Store
mod Suite
mod Demo
mod Python
mod Shell
