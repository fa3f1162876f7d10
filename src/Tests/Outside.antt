-- ===== src/Tests/Outside.antt =====
-- Concrete functions for what the pipeline takes from outside the repository.
use vm_to_quadlet.Base.FilePath.{join_path}
use vm_to_quadlet.Base.{
  String, ◌<>◌, refl, sym, ap, ◌∙◌, ◌&&◌, none, some, List, [], ◌∷◌, arith, ◌==◌, eq_iff,
  find_first, ok, ok-injective,
}
use vm_to_quadlet.Base.Dict.{lookup}
use vm_to_quadlet.Kube.Machine.{Vmi, VirtualMachine}
use vm_to_quadlet.Kube.Virt.{KubeVirtObject, TemplateArguments, KubeVirt}
use vm_to_quadlet.Quadlet.Converter.{Podman}
use vm_to_quadlet.Standalone.PreRender.Stubs.{PvcStub, Indexer, IsIndexer}
use vm_to_quadlet.Standalone.PreRender.Prepare.Laws.{IsNamespaceKept}
use vm_to_quadlet.Command.Input.{Source, YamlResult}
use vm_to_quadlet.Command.Output.{Disk, Tar}
use vm_to_quadlet.Command.Output.Laws.{Reading}
use vm_to_quadlet.Command.Pipeline
use vm_to_quadlet.Tests.Fixtures.{web_spec, web_vm, web_vmi, rendered_pod, labels, host}

-- A list of the objects, the last one first.
abbrev pub indexer : Indexer
indexer = record {
  Cache = List PvcStub;
  empty = [];
  add = λ stub c. stub ∷ c;
  get = λ ns name c. find_first (λ s. s.namespace == ns && s.name == name) c;
}

pub indexer-IsIndexer : IsIndexer indexer
indexer-IsIndexer = record { get-add = λ ns name stub c. refl }

abbrev vmi_of : VirtualMachine → Vmi
vmi_of vm = record web_vmi {
  name = vm.name;
  namespace = vm.namespace;
  spec = elim vm.template [ none ↦ web_spec | some spec ↦ spec ];
}

-- No defaults, and one pod for every instance.
abbrev pub kube_virt : KubeVirt (List PvcStub)
kube_virt = record {
  ClusterConfig = KubeVirtObject;
  new_fake_cluster_config_using_kv = λ kv. kv;
  set_virtual_machine_defaults = λ c vm. vm;
  setup_vmi_from_vm = vmi_of;
  set_default_virtual_machine_instance = λ c vmi. ok vmi;
  apply_new_vmi_mutations = λ c vmi. ok vmi;
  set_default_network_interface = λ c spec. ok spec;
  set_default_volume_disk = λ spec. spec;
  auto_attach_input_device = λ vmi. vmi;
  hotplug_disk_dir = "/var/run/kubevirt/hotplug-disks";
  TemplateService = TemplateArguments KubeVirtObject (List PvcStub);
  new_template_service = λ arguments. arguments;
  render_launch_manifest = λ service vmi. ok rendered_pod;
}

pub kube_virt-IsNamespaceKept : IsNamespaceKept kube_virt
kube_virt-IsNamespaceKept = record {
  vm_defaults = λ c vm. refl;
  setup = λ vm. refl;
  vmi_defaults = λ c vmi out e. ap (λ v. v.namespace) (sym (ok-injective e));
  mutations = λ c vmi out e. ap (λ v. v.namespace) (sym (ok-injective e));
  input_device = λ vmi. refl;
}

abbrev pub pod_text : String
pod_text =
    "[Pod]\nPodName=virt-launcher-web\n\n[Service]\nTimeoutStopSec=120\n\n[Install]\nWantedBy=default.target\n"

abbrev pub compute_text : String
compute_text = "[Container]\nImage=launcher\n\n[Service]\nRestart=on-failure\n"

-- The unit of the pod and that of its guest.
abbrev pub podman : Podman
podman = record {
  PodmanPod = String;
  marshal = λ pod. ok pod.name;
  unmarshal = λ text. ok text;
  convert = λ pod opts. ok (
      record { name = opts.name_prefix <> ".pod"; written = ok pod_text }
      ∷ record { name = opts.name_prefix <> "-compute.container"; written = ok compute_text }
      ∷ []);
}

abbrev pub outside : Pipeline.Outside
outside = record {
  indexer = indexer;
  kube_virt = kube_virt;
  podman = podman;
  marshal_vmi = λ vmi. ok "{}";
  labels = labels;
  host = host;
}

abbrev pub source : Source
source = record {
  read_file = λ path. ok "vm";
  stdin = ok "vm";
  unmarshal = λ text. YamlResult.parsed web_vm;
}

-- The files with their paths, the last one written first.
abbrev pub disk : Disk
disk = record {
  State = List (String × String);
  mkdir_all = λ dir mode s. (s, none);
  write_file = λ path text mode s. ((path, text) ∷ s, none);
}

abbrev pub tar : Tar
tar = record {
  State = List String;
  write_header = λ header s. (header.name ∷ s, none);
  write = λ text s. (text ∷ s, none);
  close = λ s. (s, none);
}

pub disk-Reading : Reading disk
unfolding lookup
disk-Reading = record {
  read = λ s path. lookup path s;
  written =
      λ path text mode s s' e. ap (λ r. lookup path r.0) (sym e) ∙ ground (arith, eq_iff path path);
  others = λ dir name text other mode s s' e differ.
      ap (λ r. lookup (join_path dir other) r.0) (sym e)
      ∙ ground (arith, eq_iff (join_path dir name) (join_path dir other), differ);
}
