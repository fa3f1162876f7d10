-- ===== src/Tests/Texts.antt =====
-- The functions on texts, and the parts of the program that they make.
use vm_to_quadlet.Base.{◌≡◌, refl}
use vm_to_quadlet.Base.Decimal.{decimal}
use vm_to_quadlet.Base.Text.{quote, base}
use vm_to_quadlet.Standalone.PostRender.Devices.{detect_gpu_vendor, GpuVendor}
use vm_to_quadlet.Standalone.PostRender.DirInit.{volume_key}
use vm_to_quadlet.Standalone.PostRender.DataVolumes.{vol_slug, image_ref}
use vm_to_quadlet.Command.Output.{file_mode}

decimal_zero : decimal 0 ≡ "0"
unfolding decimal
decimal_zero = refl

decimal_many : decimal 1048576 ≡ "1048576"
unfolding decimal
decimal_many = refl

quote_newline : quote "a\"b\n" ≡ "\"a\\\"b\\n\""
unfolding quote
quote_newline = refl

base_link : base "../../kernel/iommu_groups/12/" ≡ "12"
unfolding base
base_link = refl

base_root : base "//" ≡ "/"
unfolding base
base_root = refl

volume_key_private : volume_key "virt-launcher-private-empty" ≡ "private"
unfolding volume_key
volume_key_private = refl

volume_key_plain : volume_key "libvirt-runtime" ≡ "libvirt-runtime"
unfolding volume_key
volume_key_plain = refl

gpu_radeon : detect_gpu_vendor "Vendor/RADEON_Pro" ≡ GpuVendor.amd
unfolding detect_gpu_vendor
gpu_radeon = refl

slug_example : vol_slug "Root_Disk" ≡ "root-disk"
unfolding vol_slug
slug_example = refl

image_ref_twice : image_ref "docker://oci://quay.io/disk" ≡ "quay.io/disk"
unfolding image_ref
image_ref_twice = refl

script_mode : file_mode "start.sh" ≡ 0o755
unfolding file_mode
script_mode = refl
