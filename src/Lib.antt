-- ===== src/Lib.antt =====
-- condy is a C++ coroutine runtime on io_uring. A runtime owns one ring, a queue of works and a count
-- of pending works; senders start operations on the ring or wait on a channel or a futex, and their
-- handles are scheduled on the runtime when the result is there. This library models the parts that
-- keep state, and proves what they promise.
--
-- Prelude.antt passes on the names that all modules share: the native numbers, lists, the outcome of
-- code that can fail (an assertion, an access out of range, a panic, an exception), the laws of masks,
-- and machine words, whose arithmetic wraps at 2 ^ 64. Codes.antt names the results.
--
-- Channel.antt (include/condy/channel.hpp): a `Channel` record with the ring buffer, head_ and tail_ as
-- wrapping counters, and the awaiting handles; a function for each member, under the names of the
-- source without the trailing underscore. Channel/Bounded.antt is the abstract bounded queue, and the
-- modules beside it show that each operation does what the queue does. The capacity is taken up to
-- 2 ^ 63, the largest power of two in a size_t. The loop that empties the buffer has fuel for each item
-- and one more round, which is shown to be enough. Channel/Handles.antt has the handles that wait,
-- and Channel/Sessions.antt plays any history of them, with the runtime that invokes what a channel
-- schedules.
-- Intrusive.antt (include/condy/detail/intrusive.hpp): the linked lists over an explicit heap of links.
-- Promise.antt (include/condy/detail/coro.hpp): the lifecycle of a spawned coroutine, where the end of
-- the coroutine and the request of its owner are interleaved turn by turn, and the awaiter of a sender.
-- Coroutines.antt (include/condy/coro.hpp, include/condy/detail/coro.hpp): coroutines that await each other,
-- over a store of frames; the code of a coroutine is data, as the library takes any. The run has fuel
-- for each transfer of control.
-- Parallel.antt (include/condy/detail/op_states.hpp): the states behind when_all, when_any and links.
-- Senders.antt (include/condy/detail/senders.hpp, include/condy/sender_operations.hpp, and the start
-- functions of include/condy/detail/op_states.hpp): composed senders as trees, the operators on them, and
-- the requests that they prepare. Launch.antt (OpSenderOperationState in
-- include/condy/detail/op_states.hpp): the start of an operation on the ring, with its errors, and of a
-- sender, act by act; Launch/Linked.antt says what is relied on of liburing's entries.
-- Finish.antt (include/condy/detail/finish_handles.hpp, include/condy/runtime.hpp): how completions reach
-- the handles of operations.
-- Futex.antt (include/condy/futex.hpp): waiting on a value, with the handles from start to receipt; the
-- loop of `notify_all_` goes on a round at a time, with other calls in between.
-- Ring.antt (include/condy/detail/ring.hpp): when requests are submitted. liburing is a parameter.
-- Options.antt and Setup.antt (include/condy/runtime_options.hpp, include/condy/runtime.hpp): the
-- options of a runtime, and the parameters of the ring that they give.
-- Ids.antt (include/condy/detail/utils.hpp): the pool of ids. Work.antt
-- (include/condy/detail/work_type.hpp): tagged pointers.
-- Buffers.antt (include/condy/provided_buffers.hpp): which provided buffers a completion takes; the loop
-- has fuel for each byte, which is enough as each round takes one at least.
-- Buffers/Custody.antt follows the buffers of a pool between the kernel and the program, and
-- Buffers/Create.antt constructs and destroys queues and pools against the documented behaviour of the
-- system's calls. Buffers/Line.antt is a buffer queue as the
-- line of its buffers; the loop over a bundle has fuel for each slot of the queue.
-- Schedule.antt (include/condy/runtime.hpp): scheduling, cancelling and waking from other threads.
-- Run.antt (include/condy/runtime.hpp, include/condy/detail/ring.hpp): the event loop of run, round by
-- round; the code of works and the kernel are parameters, and the rounds have fuel.
-- Tasks.antt (include/condy/detail/task.hpp, include/condy/task.hpp): tasks, from their handle to the
-- result, over the race of Promise.antt.
-- Requests.antt (include/condy/async_operations.hpp): the public functions that ask for an operation on the
-- ring, a function of liburing standing by its name; Requests/Commands.antt has the commands of a driver.
-- Handlers.antt (include/condy/cqe_handler.hpp): what the CQE handlers make of a completion.
-- Zcrx.antt (include/condy/zcrx.hpp, include/condy/detail/buffers.hpp): zero-copy receive buffers and the
-- refill ring; the kernel's side of the ring stands still. Zcrx/Create.antt has the constructors, over
-- the calls of liburing and the system as a record, and Zcrx/Align.antt the `align_up` of
-- include/condy/detail/utils.hpp; the size of a page and of an entry are parameters.
-- Async.antt (include/condy/detail/async_operations.hpp): how an operation is made and prepares its
-- submission entry; Async/Entry.antt and Requests/Entry.antt follow the entry through its start in
-- Launch.antt.
-- Tests.antt and the modules in Tests run the theorems on concrete states.
--
-- A mutex makes each locked section one step. Not modelled: the wrappers of liburing's
-- registration calls in include/condy/ring_settings.hpp, which only pass their arguments on, the type
-- machinery of senders, memory orders, and code that belongs to the kernel or to the standard library.
pub mod Prelude
pub mod Codes
pub mod Coroutines
pub mod Channel
pub mod Intrusive
pub mod Work
pub mod Options
pub mod Promise
pub mod Parallel
pub mod Senders
pub mod Launch
pub mod Setup
pub mod Ids
pub mod Futex
pub mod Ring
pub mod Finish
pub mod Buffers
pub mod Schedule
pub mod Requests
pub mod Run
pub mod Tasks
pub mod Zcrx
pub mod Async
pub mod Handlers
pub mod Tests
