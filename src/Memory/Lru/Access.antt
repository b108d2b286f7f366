-- ===== src/Memory/Lru/Access.antt =====
-- access_mem of sim.c with the algorithm of lru.c.
use kernel_programming_proje.Base.{ℕ, ◌^◌, ◌≤◌, ◌<◌, ◌≡◌, true, List, has, After, After-map}
use kernel_programming_proje.Memory.State.{pg_valid, has_flag, Device, Machine}
use kernel_programming_proje.Memory.Pagetable.Coherent.{Coherent, in_use, Supply, Serves}
use kernel_programming_proje.Memory.Pagetable.Locate.{entry_of}
use kernel_programming_proje.Memory.Sim.{access_mem}
use kernel_programming_proje.Memory.Sim.Access.{Accessed, access_mem-Accessed}
use kernel_programming_proje.Memory.Lru.{Ends, lru}
use kernel_programming_proje.Memory.Lru.Laws.{Ordered}
use kernel_programming_proje.Memory.Lru.Lawful.{Lists, lru-Lawful}

-- With at least one and at most 2^20 frames, a linked list of lru.c that has the frames in use,
-- each once, a coremap and page tables that agree, a free swap slot and a swap file that takes
-- every page, memory for every page table, an access below 2^36 with LRU returns, hit or miss; the
-- coremap and the page tables agree, the linked list has the frames that are then in use, each
-- once, and the entry of the address is valid.
pub access_mem-Lists :
    {F : Type 0} (m : ℕ) (dev : Device F) (vaddr type : ℕ) (s : Machine F Ends) (xs : List ℕ)
    → Serves dev
    → m ≤ 2 ^ 20
    → 0 < m
    → vaddr < 2 ^ 36
    → Coherent m s
    → Ordered s xs
    → ((f : ℕ) → has f xs ≡ in_use s f)
    → Supply dev s
    → After
        (λ _ s'.
          Coherent m s'
          × Lists s' (in_use s')
          × (has_flag pg_valid (s'.ptes (entry_of vaddr)) ≡ true))
        (access_mem m dev lru type vaddr s)
unfolding lru-Lawful
access_mem-Lists m dev vaddr type s xs writes memory some_frame low a o all room =
    After-map (λ _. Accessed (lru-Lawful m) vaddr type s) _ (access_mem m dev lru type vaddr s)
      (access_mem-Accessed m dev lru (lru-Lawful m) vaddr type s writes memory some_frame low a
        (xs, o, all) room)
      λ u s' h. (h.coherent, h.tracks, h.valid)
