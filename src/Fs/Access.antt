-- ===== src/Fs/Access.antt =====
-- The permission checks of crates/zenus-fs/src/vfs.rs: who may read, write and search what.
mod Tests
use zenus.Base.{
  ℕ, ◌+◌, ◌/◌, ◌%◌, ◌^◌, ◌≡◌, ◌==◌, ltb, leb, if◌then◌else◌, Bool, true, false, not, ◌&&◌, ◌||◌,
  Option, none, some, arith, refl, Bool-cases, inl, inr,
}

pub data FileType : Type 0 where
  no_type : FileType
  file : FileType
  directory : FileType
  block_device : FileType
  char_device : FileType
  symlink : FileType

abbrev pub is_directory : FileType → Bool
is_directory no_type = false
is_directory file = false
is_directory directory = true
is_directory block_device = false
is_directory char_device = false
is_directory symlink = false

pub record FileStat : Type 0 where
  pub size : ℕ
  pub file_type : FileType
  pub inode : ℕ
  pub blocks : ℕ
  pub uid : ℕ
  pub gid : ℕ
  pub mode : ℕ

pub record Credentials : Type 0 where
  pub uid : ℕ
  pub gid : ℕ
  pub euid : ℕ
  pub egid : ℕ
  pub dac_override : Bool
  pub dac_read_search : Bool

pub new_credentials : ℕ → ℕ → ℕ → ℕ → Credentials
new_credentials uid gid euid egid = record {
  uid = uid;
  gid = gid;
  euid = euid;
  egid = egid;
  dac_override = false;
  dac_read_search = false;
}

pub with_caps : Credentials → Bool → Bool → Credentials
with_caps cred dac_override dac_read_search = record cred {
  dac_override = dac_override;
  dac_read_search = dac_read_search;
}

-- `mode & (1 << bit) != 0`
pub has_bit : ℕ → ℕ → Bool
has_bit mode bit = mode / 2 ^ bit % 2 == 1

-- The bits of the others; those of the group are three higher, those of the owner six.
abbrev pub s_iroth : ℕ
s_iroth = 2

abbrev pub s_iwoth : ℕ
s_iwoth = 1

abbrev pub s_ixoth : ℕ
s_ixoth = 0

-- One of the three branches of `access_check`, for the class whose bits start there.
pub class_check : ℕ → FileStat → Bool → Bool
unfolding has_bit
class_check class stat want_write =
    if want_write
    then (if not (has_bit stat.mode (class + s_iwoth))
        then false
        else not (not (has_bit stat.mode (class + s_ixoth)) && is_directory stat.file_type))
    else has_bit stat.mode (class + s_iroth)

pub access_check : Credentials → FileStat → Bool → Bool
unfolding class_check
access_check cred stat want_write =
    if cred.dac_override
    then true
    else if cred.dac_read_search && not want_write
    then true
    else if cred.euid == stat.uid
    then class_check 6 stat want_write
    else if cred.egid == stat.gid
    then class_check 3 stat want_write
    else class_check 0 stat want_write

-- Anything but the three low bits is refused.
pub decode_access_mode : ℕ → Option (Bool × Bool × Bool)
unfolding has_bit
decode_access_mode mode =
    if leb 8 mode then none else some (has_bit mode 2, has_bit mode 1, has_bit mode 0)

-- The first argument is not looked at.
pub owns : ℕ → ℕ → FileStat → Bool
owns uid euid stat = euid == 0 || euid == stat.uid

abbrev pub class_of : ℕ → ℕ → FileStat → ℕ
class_of euid egid stat = if euid == stat.uid then 6 else if egid == stat.gid then 3 else 0

-- The `uid` and the `gid` that the source takes too are not looked at.
pub access_check_bits : ℕ → ℕ → Bool → Bool → FileStat → Bool → Bool → Bool → Bool
unfolding has_bit
access_check_bits euid egid dac_override dac_read_search stat want_read want_write want_exec =
    let class = class_of euid egid stat in
    if dac_override
    then true
    else if dac_read_search && (not want_write && (not want_exec || is_directory stat.file_type))
    then true
    else if want_read && not (has_bit stat.mode (class + s_iroth))
    then false
    else if want_write && not (has_bit stat.mode (class + s_iwoth))
    then false
    else not (want_exec && not (has_bit stat.mode (class + s_ixoth)))

pub may : Credentials → FileStat → Bool → Bool → Bool → Bool
unfolding access_check_bits
may cred stat want_read want_write want_exec =
    access_check_bits cred.euid cred.egid cred.dac_override cred.dac_read_search stat want_read
      want_write want_exec

pub may_modify_parent : FileStat → Credentials → Bool
unfolding may
may_modify_parent parent_stat cred =
    if cred.dac_override
    then true
    else if not (is_directory parent_stat.file_type)
    then false
    else may cred parent_stat false true true

access_check-class :
    (cred : Credentials) (stat : FileStat) (want_write : Bool)
    → access_check cred stat want_write ≡ (
        cred.dac_override
        || ((cred.dac_read_search && not want_write)
            || class_check (class_of cred.euid cred.egid stat) stat want_write))
unfolding access_check
access_check-class cred stat want_write = elim (Bool-cases (cred.euid == stat.uid)) [
  | inl b ↦ rw b (ground arith)
  | inr b ↦ elim (Bool-cases (cred.egid == stat.gid)) [
    | inl c ↦ rw b (rw c (ground arith))
    | inr c ↦ rw b (rw c (ground arith))
  ]
]

-- The check that opening a file makes is the general one, for reading alone or for writing alone, where writing
-- a directory needs the right to search it; and a name may be made in a directory or taken from it
-- exactly where this check lets it be written. A caller with the capability needs no directory.
pub access_check-may :
    (cred : Credentials) (stat : FileStat) (want_write : Bool)
    → (access_check cred stat want_write
        ≡ may cred stat (not want_write) want_write (want_write && is_directory stat.file_type))
      × (may_modify_parent stat cred
          ≡ (cred.dac_override || (is_directory stat.file_type && access_check cred stat true)))
unfolding may access_check_bits class_check may_modify_parent
access_check-may cred stat want_write = (
  rw (access_check-class cred stat want_write) (ground arith),
  rw (access_check-class cred stat true) (ground arith),
)
