-- ===== src/Standalone/PostRender.antt =====
-- pkg/standalone/post_render.go: step 5 of the pipeline, one module for each of its functions.
pub mod Compute
pub mod Proxies
pub mod Devices
pub mod DataVolumes
pub mod Cleanup
pub mod DirInit
pub mod Patcher
pub mod State
pub mod Adapt
pub mod Mounts
pub mod Guest
