-- ===== src/Standalone/PostRender/DataVolumes/Scripts.antt =====
-- The two shell scripts of `injectDataVolumeInitContainers`.
use vm_to_quadlet.Base.{String, ◌<>◌}
use vm_to_quadlet.Base.Int.{ℤ, show}
use vm_to_quadlet.Base.Text.{quote}

unfoldable pub import_script : String → String → ℤ → String
unfolding quote show
import_script disk source_mount size =
    "set -eu\n"
    <> "DISK="
    <> quote disk
    <> "\n"
    <> "SOURCE_MOUNT="
    <> quote source_mount
    <> "\n"
    <> "SIZE="
    <> show size
    <> "\n"
    <> "TMP=\"${DISK}.partial\"\n"
    <> "rm -f \"$TMP\"\n"
    <> "trap 'rm -f \"$TMP\"' EXIT\n"
    <> "if [ ! -f \"$DISK\" ]; then\n"
    <> "    SOURCE=$(find \"$SOURCE_MOUNT\" -maxdepth 2 \\( -name \"*.img\" -o -name \"*.qcow2\" \\) 2>/dev/null | head -1)\n"
    <> "    if [ -z \"$SOURCE\" ]; then\n"
    <> "        echo \"ERROR: no disk image found in $SOURCE_MOUNT\" >&2\n"
    <> "        exit 1\n"
    <> "    fi\n"
    <> "    echo \"Importing $SOURCE -> $DISK\"\n"
    <> "    qemu-img convert -O raw \"$SOURCE\" \"$TMP\"\n"
    <> "    CURRENT=$(stat -c '%s' \"$TMP\")\n"
    <> "    if [ \"$SIZE\" -gt \"$CURRENT\" ]; then\n"
    <> "        qemu-img resize -f raw \"$TMP\" \"$SIZE\"\n"
    <> "        CURRENT=$(stat -c '%s' \"$TMP\")\n"
    <> "    fi\n"
    <> "    if [ \"$CURRENT\" -lt \"$SIZE\" ]; then\n"
    <> "        echo \"ERROR: imported disk smaller than requested ($CURRENT < $SIZE bytes)\" >&2\n"
    <> "        exit 1\n"
    <> "    fi\n"
    <> "    mv -f \"$TMP\" \"$DISK\"\n"
    <> "else\n"
    <> "    CURRENT=$(stat -c '%s' \"$DISK\")\n"
    <> "    if [ \"$SIZE\" -gt \"$CURRENT\" ]; then\n"
    <> "        qemu-img resize -f raw \"$DISK\" \"$SIZE\"\n"
    <> "    elif [ \"$SIZE\" -lt \"$CURRENT\" ]; then\n"
    <> "        echo \"Warning: ignoring shrink request for $DISK ($CURRENT -> $SIZE bytes)\" >&2\n"
    <> "    fi\n"
    <> "fi"

unfoldable pub init_script : String → ℤ → String
unfolding quote show
init_script disk size =
    "set -eu\n"
    <> "DISK="
    <> quote disk
    <> "\n"
    <> "SIZE="
    <> show size
    <> "\n"
    <> "TMP=\"${DISK}.partial\"\n"
    <> "rm -f \"$TMP\"\n"
    <> "trap 'rm -f \"$TMP\"' EXIT\n"
    <> "if [ ! -f \"$DISK\" ]; then\n"
    <> "    qemu-img create -f raw \"$TMP\" \"$SIZE\"\n"
    <> "    CURRENT=$(stat -c '%s' \"$TMP\")\n"
    <> "    if [ \"$CURRENT\" -lt \"$SIZE\" ]; then\n"
    <> "        echo \"ERROR: created disk smaller than requested ($CURRENT < $SIZE bytes)\" >&2\n"
    <> "        exit 1\n"
    <> "    fi\n"
    <> "    mv -f \"$TMP\" \"$DISK\"\n"
    <> "else\n"
    <> "    CURRENT=$(stat -c '%s' \"$DISK\")\n"
    <> "    if [ \"$SIZE\" -gt \"$CURRENT\" ]; then\n"
    <> "        qemu-img resize -f raw \"$DISK\" \"$SIZE\"\n"
    <> "    elif [ \"$SIZE\" -lt \"$CURRENT\" ]; then\n"
    <> "        echo \"Warning: ignoring shrink request for $DISK ($CURRENT -> $SIZE bytes)\" >&2\n"
    <> "    fi\n"
    <> "fi"
