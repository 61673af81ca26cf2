-- ===== src/Tests.antt =====
-- Concrete runs of the modelled parts, and the theorems at concrete inputs.
mod Adapter
mod Transcripts
mod Files
mod Local
mod Memory
mod Connector
mod Auth
mod Ready
mod Queues
mod Live
mod Jobs
mod Once
mod Workers
