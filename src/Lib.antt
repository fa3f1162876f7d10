-- ===== src/Lib.antt =====
-- vm-to-quadlet: KubeVirt virtual machines as Quadlet units of Podman.
--
-- The program (cmd/vm-to-quadlet/main.go) reads a VirtualMachine, takes it through seven steps and
-- writes unit files: steps 1 and 2 read and parse (readVM); step 3 validates the machine and derives
-- its instance (pkg/standalone/pre_render.go); step 4 is KubeVirt's RenderLaunchManifest, set up by
-- pkg/kubevirt/kubevirt.go; step 5 adapts the pod (pkg/standalone/post_render.go); step 6 converts it
-- to units (pkg/quadlet/converter.go, around a vendored converter); step 7 edits the units' text
-- (pkg/standalone/post_convert.go). Each step is a function from the result of the one before; a step
-- that changes its argument in place returns it here, which is faithful as every step owns what it is
-- given. An error is the value `err message`; what is printed to stderr is a list of lines beside the
-- result (Logged). The renderer of pkg/quadlet/render.go stands beside the pipeline.
--
-- Base, and below it: what the program takes from Go. Lists, Results, Text (strings, fmt),
--   FilePath (filepath.Join and Clean), Decimal (%d), Dict (maps), Sort (sort.Strings, a map as a
--   set), Int. Texts are sequences of characters; where Go slices bytes, the places that the
--   program finds are those of ASCII characters. Three of Go's functions differ on characters
--   beyond ASCII: strings.ToLower changes none of them but the two whose lower case is an ASCII
--   letter, the verb %q prints them all, and the slice that drops the last byte of a name drops
--   its last character. Integers are compared with 0 and printed, never added, so they have no
--   width.
-- Kube: Pod and Machine hold the API types as far as the program reads or writes them; a pointer is an
--   Option. Virt has the functions of KubeVirt as parameters, and pkg/kubevirt.
-- Standalone: Options and PreparedVM. PreRender has a module for each part of step 3: Validate
--   (validateForStandalone and its helpers), Stubs (stubPVCsForVM), Networks (forcePasstBinding,
--   populateInterfaceStatus) and Prepare (PrepareForRendering). PostRender has one for each part of
--   step 5: Compute (the loop that changes the container "compute"), Proxies, Devices, DataVolumes,
--   Cleanup, DirInit, Patcher, State, and Adapt, which puts them in order; Mounts and Guest have what
--   holds through all of them. PostConvert is step 7.
-- Quadlet: the types of pkg/quadlet/types.go. Render is the renderer, with a reader of unit texts in
--   Render/Parse and a table of the keys of each section in Render/Lines; Converter is step 6.
-- Command: Input (readVM and its hints), Output (writeFiles, writeTAR), Pipeline (convertVM) and Run
--   (the root command, run, and pkg/version).
-- Tests: a machine, its pod and its units, concrete functions for the parameters, and the theorems at
--   these.
--
-- Parameters: KubeVirt, client-go's indexer, Podman's converter with the two JSON steps in front of it,
-- json.Marshal of an instance, the labels of the CPU manager, the files of the host, the YAML reader,
-- the disk and the tar writer. Named hypotheses say what is relied on: IsIndexer, IsNamespaceKept,
-- Answers, Reading and Archiving. The one loop on fuel is that of the decimal digits, with `suc n` rounds for n:
-- a number has no more digits than that.
--
-- Not modelled: the flags' parsing by Cobra and its help texts; the progress lines of writeFiles and
-- the exit code; the pool of buffers of the converter; what the generated shell scripts do when they
-- run; internal/third_party, which holds copies of other projects.
pub mod Base
pub mod Kube
pub mod Quadlet
pub mod Standalone
pub mod Command
pub mod Tests
