-- ===== src/Collectors/Filesys.antt =====
-- src/core/collectors/filesys.rs: `parse_mounts` of /proc/self/mounts, and the figures of statvfs(2). The calls and
-- their deadline are in Calls.
pub mod Tables
pub mod Mounts
pub mod Usage
pub mod Calls
use blazebee.Base.{
  ℕ, Bool, true, false, not, ◌||◌, ◌==◌, Option, none, some, List, [], ◌∷◌, ◌++◌, is_some,
  if◌then◌else◌,
}
use blazebee.Base.Text.{Text, codes}
use blazebee.Collectors.Procfs.{lines, fields, unescape_mount_field}
use blazebee.Collectors.Maps.{member, get, put, remove}
use blazebee.Settings.Expand.{strip_prefix}

unfoldable pub skipped_fs_types : List Text
skipped_fs_types =
    codes "autofs"
    ∷ codes "binfmt_misc"
    ∷ codes "bpf"
    ∷ codes "cgroup"
    ∷ codes "cgroup2"
    ∷ codes "configfs"
    ∷ codes "debugfs"
    ∷ codes "devpts"
    ∷ codes "devtmpfs"
    ∷ codes "efivarfs"
    ∷ codes "fusectl"
    ∷ codes "hugetlbfs"
    ∷ codes "mqueue"
    ∷ codes "nsfs"
    ∷ codes "overlay"
    ∷ codes "proc"
    ∷ codes "procfs"
    ∷ codes "pstore"
    ∷ codes "ramfs"
    ∷ codes "rpc_pipefs"
    ∷ codes "securityfs"
    ∷ codes "selinuxfs"
    ∷ codes "squashfs"
    ∷ codes "sysfs"
    ∷ codes "tmpfs"
    ∷ codes "tracefs"
    ∷ codes "nfs"
    ∷ codes "nfs4"
    ∷ codes "cifs"
    ∷ codes "smb3"
    ∷ codes "smbfs"
    ∷ codes "afs"
    ∷ codes "ceph"
    ∷ codes "glusterfs"
    ∷ codes "9p"
    ∷ codes "lustre"
    ∷ []

pub record Mount : Type 0 where
  pub device : Text
  pub mount_point : Text
  pub fs_type : Text

abbrev starts_with : Text → Text → Bool
starts_with prefix s = is_some (strip_prefix prefix s)

-- The guard of the loop.
unfoldable pub is_skipped : Text → Text → Bool
is_skipped device fs_type =
    not (starts_with (codes "/") device)
    || member fs_type skipped_fs_types
    || starts_with (codes "fuse") fs_type

-- A line, by its fields; `none` is a line that the loop passes over.
unfoldable pub parse_mount : List Text → Option Mount
parse_mount [] = none
parse_mount (device ∷ []) = none
parse_mount (device ∷ mount_point ∷ []) = none
parse_mount (device ∷ mount_point ∷ fs_type ∷ rest) =
    if is_skipped device fs_type
    then none
    else some (record {
      device = unescape_mount_field device;
      mount_point = unescape_mount_field mount_point;
      fs_type = fs_type;
    })

-- The two collections that the loop fills.
pub record Table : Type 0 where
  pub by_path : List (Text × Mount)
  pub order : List Text

abbrev pub empty_table : Table
empty_table = record { by_path = []; order = [] }

unfoldable pub add_mount : Table → Mount → Table
add_mount t m = record {
  by_path = put m.mount_point m t.by_path;
  order =
      if is_some (get m.mount_point t.by_path) then t.order else t.order ++ (m.mount_point ∷ []);
}

unfoldable pub read_mounts : Table → List Text → Table
read_mounts t [] = t
read_mounts t (l ∷ ls) =
    read_mounts (elim (parse_mount (fields l)) [ none ↦ t | some m ↦ add_mount t m ]) ls

-- `filter_map` of `by_path.remove` over the order.
unfoldable pub take_out : List Text → List (Text × Mount) → List Mount
take_out [] by_path = []
take_out (p ∷ ps) by_path =
    let rest = take_out ps (remove p by_path) in
    elim (get p by_path) [ none ↦ rest | some m ↦ m ∷ rest ]

unfoldable pub parse_mounts : Text → List Mount
parse_mounts content = let t = read_mounts empty_table (lines content) in take_out t.order t.by_path
