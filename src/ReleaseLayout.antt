-- ===== src/ReleaseLayout.antt =====
-- lib/release-layout.js: releases in directories of their own behind a link `current`.
pub mod State
pub mod Plan
pub mod Steps
pub mod Apply
