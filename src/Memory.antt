-- ===== src/Memory.antt =====
-- Memory_Management_Simulator: the demand paging simulator. `State` is the simulated machine,
-- `Bitmap` and `Swap` the swap file (swap.c), `Pagetable` the translation (pagetable.c), `Fifo`,
-- `Rand`, `Clock`, `Lru` and `Opt` replacement algorithms, and `Sim` and `Main` the driver (sim.c).
pub mod Bitmap
pub mod State
pub mod Swap
pub mod Pagetable
pub mod Fifo
pub mod Rand
pub mod Clock
pub mod Lru
pub mod Opt
pub mod Sim
pub mod Main
mod Examples
mod LruExamples
mod OptExamples
mod MainExamples
