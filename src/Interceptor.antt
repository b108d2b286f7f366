-- ===== src/Interceptor.antt =====
-- System_Call_Interceptor/interceptor.c and interceptor.h: the kernel module that hijacks system
-- calls. `Kernel` is the state and its primitives, `PidList` the list operations, `Commands` the
-- handler of MY_CUSTOM_SYSCALL, `Module` the two hijacked calls, loading and unloading.
pub mod Kernel
pub mod PidList
pub mod Sound
pub mod Commands
pub mod Module
mod Examples
