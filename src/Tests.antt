-- ===== src/Tests.antt =====
-- The theorems at concrete machines, pods and files, and the functions at concrete texts.
mod Fixtures
mod Outside
mod PreRender
mod PostRender
mod Units
mod Command
mod Texts
mod Whole
