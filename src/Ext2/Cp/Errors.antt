-- ===== src/Ext2/Cp/Errors.antt =====
-- What ext2_cp.c leaves behind when it fails.
use kernel_programming_proje.Base.{ℕ, ◌≡◌, ◌≢◌, List, Option, some, arith}
use kernel_programming_proje.Ext2.Disk.{Disk}
use kernel_programming_proje.Ext2.Tools.{failure, Errno, enospc}
use kernel_programming_proje.Ext2.Cp.Main.{NativeFile, ext2_cp}

-- If ext2_cp returns an error other than ENOSPC, the image is as it was before.
pub ext2_cp-unchanged :
    (now : ℕ) (old : List ℕ) (native : List ℕ → Option NativeFile) (argv : List (List ℕ))
    (image after : Option Disk) (e : Errno)
    → ext2_cp now old native argv image ≡ some (failure e, after)
    → e ≢ enospc
    → after ≡ image
unfolding ext2_cp
ext2_cp-unchanged now old native argv image after e failed other = ground arith
