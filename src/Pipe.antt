-- ===== src/Pipe.antt =====
-- Kernel/ipc/pipe.c: `Buffer` is a pipe's ring of bytes, with read_pipe_buffer and write_pipe_buffer.
pub mod Buffer
pub mod Table
pub mod Callbacks
