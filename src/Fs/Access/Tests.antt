-- ===== src/Fs/Access/Tests.antt =====
-- The theorem on the permission checks of crates/zenus-fs/src/vfs.rs at a directory of another user.
use zenus.Base.{◌≡◌, true, false, not, ◌&&◌, ◌||◌}
use zenus.Fs.Access.{
  Credentials, FileStat, access_check, access_check-may, directory, is_directory, may,
  may_modify_parent,
}

-- `drwxrwxr-x` of the user 1000 and the group 100.
abbrev shared_directory : FileStat
shared_directory = record {
  size = 0;
  file_type = directory;
  inode = 7;
  blocks = 0;
  uid = 1000;
  gid = 100;
  mode = 16893;
}

abbrev colleague : Credentials
colleague = record {
  uid = 1001;
  gid = 100;
  euid = 1001;
  egid = 100;
  dac_override = false;
  dac_read_search = false;
}

access_check-may_example :
    (access_check colleague shared_directory true
      ≡ may colleague shared_directory (not true) true (true && is_directory directory))
    × (may_modify_parent shared_directory colleague
        ≡ (false || (is_directory directory && access_check colleague shared_directory true)))
access_check-may_example = access_check-may colleague shared_directory true
