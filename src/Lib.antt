-- ===== src/Lib.antt =====
-- A library about the real-time kernel of rtos/src and the XRCE-DDS client of xrce/src.
--
-- The kernel. Kernel/State.antt has the data: a task (`task_t` of rtos/src/task.h), and the
-- static variables of rtos/src/scheduler.c over a heap of tasks, in which a `task_t *` is a
-- number, so that two pointers to one task see one task. Kernel/Scheduler.antt is
-- rtos/src/scheduler.c without preemption (`scheduler_add_task`, `pick_next_ready`, a round of
-- `scheduler_run`, `task_yield`). Kernel/Preempt.antt is the rest of that file:
-- `update_tick_bookkeeping`, `preempt_handler`, `task_sleep` and the settings. Kernel/Task.antt
-- is rtos/src/task.c and rtos/src/kernel.c: creation, the canary and the high water mark of a
-- stack. Kernel/Sync.antt is rtos/src/sync.c: mutexes, semaphores and the ring of a queue. Its
-- rounds are code without a tick inside. Kernel/Sync/Queues.antt is `queue_send` and
-- `queue_receive` as a step relation, with preemption off: tasks call them in any order, and
-- between two statements of a call any other task may make a round of its own, from any state of
-- the kernel in which preemption is off, which is more than can happen then. With preemption on a
-- tick can come between the test and the write of a round, and the counts and the lock are not
-- safe from that. Kernel/Sync/Rings.antt sees the ring as a list, Kernel/Sync/Channels.antt,
-- Kernel/Sync/Turns.antt and Kernel/Sync/Rounds.antt have what a round keeps,
-- Kernel/Sync/Sharing.antt and Kernel/Sync/Queueing.antt what holds with any number of tasks.
--
-- Kernel/System.antt puts them together as a step relation. `swapcontext` is a move of the
-- control: a task has a saved context, which tells where it resumes, and the processor is in the
-- loop of `scheduler_run`, in that loop with the next task made current, in the code of the
-- current task, or at the end of a `preempt_handler` that was switched back to. The tasks are the
-- environment: in any order they yield, sleep, write the state (any but RUNNING), the deadline or
-- the priority of any task, spawn, return and change the settings, and a tick may come between
-- any two steps. The writes cover the parts of `mutex_lock`, `mutex_unlock`, `sem_wait`,
-- `sem_post`, `task_sleep` and `task_yield`, so a tick may come into these too; it may also come
-- into the loops of `pick_next_ready` (`choose` takes any READY task) and between the writes of a
-- dispatch, where it saves the context of `scheduler_run` as that of the task. What that does to
-- the stacks is left out: the control goes on as if the frames were still there, and likewise for
-- a task that is made READY behind its end. A tick inside the statements of `scheduler_add_task`
-- and of the settings is left out. Kernel/System/Invariant.antt has the invariant,
-- Kernel/System/Preserve.antt that every step keeps it (by Switches, Leaving and Spawning beside
-- it), Kernel/System/Safety.antt what follows of every reachable state.
--
-- The client. Xrce/Cdr.antt is xrce/src/cdr.c: a writer has the bytes written so far and the
-- capacity of its buffer, a reader its buffer and position, and failure is `none`. A `double` is
-- the 64 bits that are copied from it. Xrce/Msgs.antt and its children are xrce/src/msgs.c, one
-- record for a message: Basic (Int32, String, Trigger), Geometry (Imu, Twist), Actions (the
-- Fibonacci action), Goals (the status and cancelling of goals) and Diagnostics. A `char` array
-- is the list of the bytes before its terminator, and an array with a count is the list of its
-- first elements. Xrce/Serial.antt is xrce/src/serial_transport.c: frames with byte stuffing and
-- a CRC, and the reader as a state machine fed byte by byte. Xrce/Reliable.antt is
-- xrce/src/reliable_stream.c: the window of messages that wait for an acknowledgement.
--
-- Xrce/Sha256.antt is xrce/src/sha256.c and xrce/src/hmac.c: the context keeps the bytes in its
-- buffer as a list, and a 32 bit word is a number whose sums wrap round. Xrce/Secure.antt is
-- xrce/src/secure_transport.c: a frame is a counter, the first bytes of an HMAC and the payload,
-- and what is handed out is a value of the result.
--
-- Xrce/Session.antt and its children are xrce/src/session.c: the numbers that a session counts,
-- the layout of its messages (Layout, Headers), the eight builders of messages (the parent) and
-- the readers of replies, of data and of the control messages. A builder is a chain of writes, as
-- in the code, and the message it makes is compared with an independent description of its bytes
-- (Frames, Requests); a reader is compared with one that looks at fixed places (Reading,
-- Entering, Bodies, Replies, Control).
--
-- The programs. Gateway.antt is host/secure_gateway.c: the relay of frames between a secure
-- serial line and a plain one, over the lists of bytes that arrive; Gateway/Relaying.antt and
-- Gateway/Forwarding.antt have its theorems. Firmware.antt is rtos/arm/ros2_demo.c, the firmware
-- that speaks to an XRCE agent over the UART: Firmware/Node.antt and Firmware/Announce.antt the
-- entities that it creates, Firmware/Speaking.antt and Firmware/Heard.antt what its sending means
-- to a frame reader, Firmware/Announcing.antt and Firmware/Running.antt the run of its main task.
--
-- Common.antt and its children have the shared names, Boolean tests, lists and integers over the
-- native numbers. Kernel/Tests.antt, Kernel/Sync/Tests.antt, Xrce/Tests.antt,
-- Xrce/MsgsTests.antt, Xrce/SecureTests.antt, Xrce/SessionTests.antt, Gateway/Tests.antt and
-- Firmware/Tests.antt run the code on examples.
--
-- Bounds. A `uint16_t`, `uint32_t` or `uint64_t` wraps round where the code adds to it. An `int`
-- of the code is an integer without a bound. The two loops of xrce/src/reliable_stream.c have
-- fuel 2 ^ 16, one round for each sequence number; they end before that, as the theorems on them
-- state. The padding loop of xrce/src/sha256.c has fuel 64, enough for any buffer; its loop over
-- whole blocks has the length of the data as fuel, and each round takes 64 bytes. A blocking call
-- of rtos/src/sync.c is modelled by its round, since its loop leaves the processor in each one.
-- The main loop of rtos/arm/ros2_demo.c has its number of rounds as an argument, below 2 ^ 31,
-- where its counter is still exact; the text of its node identity has at most 20 characters,
-- enough for any number, so that every description fits its buffer; the waiting loops between
-- frames have 5000 turns, as in the code. The relay of host/secure_gateway.c is recursion on the
-- arriving bytes.
--
-- Not modelled: the C library, so `calloc`, `malloc`, `getcontext`, `makecontext` and `snprintf`
-- are fields of a record that `task_create` takes; signals and timers as such; `task_destroy` and
-- the abort on a broken canary; the registers of the UART, the terminal settings, the logs and
-- the closing of a line in the two programs, where `sscanf` is a parameter of the reading of the
-- key; rtos/arm/kernel_arm.c, the other demos of rtos/arm, and the other programs of host, the
-- tests and examples.
pub mod Common
pub mod Kernel
pub mod Xrce
pub mod Gateway
pub mod Firmware
