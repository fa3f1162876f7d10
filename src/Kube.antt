-- ===== src/Kube.antt =====
-- The objects of the Kubernetes and KubeVirt APIs that the program reads and writes, with the
-- fields that it reads or writes. Pointers are `Option`; a pointer whose target the program never
-- opens is a Boolean, true where it is not nil.
pub mod Pod
pub mod Machine
pub mod Virt
