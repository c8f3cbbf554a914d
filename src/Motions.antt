-- ===== src/Motions.antt =====
-- Motion drafting, checks, review and export: server/app/api/routes/motions.py, with
-- `latest_analysis_run` of server/app/services/platform.py and `render_motion` of
-- server/app/services/analysis.py. A route returns the motion; `motion_payload` only reads.
pub mod Drafting
pub mod Checks
pub mod Review
pub mod Effects
pub mod Refinement
pub mod Routes
pub mod Invariants
pub mod Blocked
pub mod Gate
pub mod History
