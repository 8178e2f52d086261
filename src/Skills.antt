-- ===== src/Skills.antt =====
-- The life cycle of skills: pkgs/bay/app/services/skills/service.py, on the tables of
-- pkgs/bay/app/models/skill.py.
pub mod Rows
pub mod Service
pub mod Tags
pub mod History
pub mod Listing
pub mod Blobs
pub mod Review
pub mod Intake
pub mod Health
pub mod Percentile
pub mod Candidates
pub mod Versions
pub mod Active
pub mod Untouched
pub mod Publication
pub mod Overlap
pub mod Tests
