-- ===== src/Kernel/Syscall.antt =====
-- arch/x86_64/syscalls/syscalls.c. Registers of the processor are named by their numbers, and
-- `syscall_entry` and `sstacks` are addresses.
use pointer_os.Base.{ℕ, ◌+◌, ◌*◌, ◌^◌, bit_or, ◌==◌, if◌then◌else◌, update}
use pointer_os.Kernel.Lifecycle.{System, thread_exit}

-- `write_msr` with the two halves of a value.
abbrev pub write_msr : (ℕ → ℕ) → ℕ → ℕ → ℕ → ℕ
write_msr msr number value = update msr number value

unfoldable pub init_kernel_gs_base : (ℕ → ℕ) → ℕ → ℕ → ℕ
init_kernel_gs_base msr sstacks = write_msr msr 0xC0000102 sstacks

-- Bit 0 of IA32_EFER, the two segments of IA32_STAR, the entry, and the flags that are cleared there.
unfoldable pub init_syscalls : (ℕ → ℕ) → ℕ → ℕ → ℕ → ℕ
init_syscalls msr syscall_entry sstacks =
    let msr = write_msr msr 0xC0000080 (bit_or (msr 0xC0000080) 1) in
    let msr = write_msr msr 0xC0000081 (0x10 * 2 ^ 48 + 0x08 * 2 ^ 32) in
    let msr = write_msr msr 0xC0000082 syscall_entry in
    let msr = write_msr msr 0xC0000084 (0x200 + 0x40 + 0x100) in init_kernel_gs_base msr sstacks

-- The registers of the call are not read. The thread of `SYS_EXIT` yields and does not come back.
unfoldable pub syscall_handler : System → ℕ → System
syscall_handler s sys_num = if sys_num == 60 then thread_exit s else s
