-- ===== src/Analysis.antt =====
-- The analysis of a case: server/app/services/analysis.py.
pub mod Patterns
pub mod Observations
pub mod Contradictions
pub mod Timeline
pub mod Procedure
pub mod Authorities
pub mod Drafts
pub mod Recommendations
pub mod Rows
pub mod Entries
pub mod Run
pub mod Routes
pub mod Flagship
pub mod Tests
