-- ===== src/LocalPipeline.antt =====
-- The local pipeline: speech to text, the table of segments and their speakers
-- (src/interview_analytics_agent/services/local_pipeline.py and the repositories of
-- src/interview_analytics_agent/storage/repositories.py that it uses).
pub mod Labels
pub mod Locked
pub mod Tail
pub mod Table
pub mod Chunks
pub mod Passes
