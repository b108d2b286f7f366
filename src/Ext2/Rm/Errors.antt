-- ===== src/Ext2/Rm/Errors.antt =====
-- What ext2_rm.c leaves behind when it fails.
use kernel_programming_proje.Base.{ℕ, ◌≡◌, List, Option, some, arith}
use kernel_programming_proje.Ext2.Disk.{Disk}
use kernel_programming_proje.Ext2.Tools.{failure, Errno}
use kernel_programming_proje.Ext2.Rm.Tree.{ext2_rm}

-- If ext2_rm returns an error, the image is as it was before.
pub ext2_rm-unchanged :
    (now : ℕ) (argv : List (List ℕ)) (image after : Option Disk) (e : Errno)
    → ext2_rm now argv image ≡ some (failure e, after)
    → after ≡ image
unfolding ext2_rm
ext2_rm-unchanged now argv image after e failed = ground arith
