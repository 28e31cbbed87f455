-- ===== src/Tests.antt =====
-- Runs of the model on concrete inputs, and its theorems at such inputs.
mod Fixtures
mod Settings
mod Wire
mod Paths
mod Builds
mod Links
mod Registrations
mod Sessions
mod Systems
mod Programs
mod Variables
mod Transfers
