-- ===== src/Tests.antt =====
-- Runs of the modelled code on concrete data, and the theorems at inputs that meet their hypotheses.
mod Text
mod Files
mod Pipe
mod Replace
mod Tables
mod Gate
mod Debugger
mod Sleep
mod Scans
mod Regions
mod KeyText
mod Log
mod LogPasses
