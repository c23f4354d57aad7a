-- ===== src/Links.antt =====
-- Doubly linked lists through `next` and `prev` pointers: the null-terminated lists of mm/ and the
-- ring of threads of kernel/scheduler/thread.c. A store of structs gives the two functions `nx` and
-- `pv`. Address 0 is `NULL`, and its fields are never looked at.
pub mod Chain
pub mod Insert
pub mod Member
pub mod Unlink
