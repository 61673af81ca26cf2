-- ===== src/Transcript.antt =====
-- The processing of a transcript: who speaks in a segment, the cleaning of its text, the assembly
-- of the whole, and the rows of the structured form (src/interview_analytics_agent/processing).
-- The searches of the compiled regular expressions are parameters.
pub mod Speakers
pub mod Enhance
pub mod Assembly
pub mod Structured
