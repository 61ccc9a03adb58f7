-- ===== src/Tasks.antt =====
-- src/task: the tasks, the two executors and the stream of scancodes.
pub mod Queues
pub mod Futures
pub mod SimpleExecutor
pub mod Executor
pub mod Keyboard
pub mod Wakeups
