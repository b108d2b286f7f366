-- ===== src/Ext2/Ln/Errors.antt =====
-- What ext2_ln.c leaves behind when it fails.
use kernel_programming_proje.Base.{ℕ, ◌≡◌, ◌≢◌, List, Option, some, arith}
use kernel_programming_proje.Ext2.Disk.{Disk}
use kernel_programming_proje.Ext2.Tools.{failure, Errno, enospc}
use kernel_programming_proje.Ext2.Ln.Main.{ext2_ln}

-- If ext2_ln returns an error other than ENOSPC, the image is as it was before.
pub ext2_ln-unchanged :
    (now : ℕ) (argv : List (List ℕ)) (image after : Option Disk) (e : Errno)
    → ext2_ln now argv image ≡ some (failure e, after)
    → e ≢ enospc
    → after ≡ image
unfolding ext2_ln
ext2_ln-unchanged now argv image after e failed other = ground arith
