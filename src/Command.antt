-- ===== src/Command.antt =====
-- cmd/vm-to-quadlet/main.go and pkg/version/version.go: the command around the pipeline.
pub mod Pipeline
pub mod Input
pub mod Output
pub mod Run
