-- ===== src/Ext2/Tools.antt =====
-- What the main functions of ext2_rm.c, ext2_ls.c, ext2_mkdir.c and ext2_ln.c share: the numbers
-- that they return, and their options. What read_image gives is an argument: `none` if the image
-- cannot be mapped.
use kernel_programming_proje.Base.{
  ℕ, Bool, true, false, ◌&&◌, List, [], ◌∷◌, Option, none, some, length, ◌==◌, if◌then◌else◌,
}
use kernel_programming_proje.Ext2.Names.{byte_at}

-- The values of errno.h that the tools return, and EXIT_FAILURE.
pub data Errno : Type 0 where
  einval : Errno
  enoent : Errno
  eisdir : Errno
  eexist : Errno
  enospc : Errno
  enametoolong : Errno
  exit_failure : Errno

pub data Exit : Type 0 where
  success : Exit
  failure : Errno → Exit

-- The flag and the path that follow the name of the disk; `none` is a usage error.
abbrev pub options : ℕ → List (List ℕ) → Option (Bool × List ℕ)
options letter (program ∷ disk ∷ path ∷ []) = some (false, path)
options letter (program ∷ disk ∷ flag ∷ path ∷ []) =
    if (length flag == 2) && ((byte_at flag 0 == b'-') && (byte_at flag 1 == letter))
    then some (true, path)
    else none
options letter argv = none
