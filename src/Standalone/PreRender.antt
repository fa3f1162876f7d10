-- ===== src/Standalone/PreRender.antt =====
-- pkg/standalone/pre_render.go: step 3 of the pipeline, in the order in which it runs.
pub mod Validate
pub mod Stubs
pub mod Networks
pub mod Prepare
