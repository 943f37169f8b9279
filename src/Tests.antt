-- ===== src/Tests.antt =====
-- The theorems at concrete inputs, and runs of the definitions.
mod Worlds
mod Recording
mod Queueing
mod Answering
mod Resting
mod Reading
mod Responding
mod Printing
mod Proposing
mod Starting
mod Signalling
mod Fitting
mod Configuring
mod Tabular
mod Serving
