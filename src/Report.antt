-- ===== src/Report.antt =====
-- The report on an interview (src/interview_analytics_agent/processing/analytics.py): the quality
-- of the transcript, the scorecard, the decision, and the normalization of what the language model
-- answers. Floating point numbers and the model are parameters.
pub mod Json
pub mod Quality
pub mod Scores
pub mod Build
