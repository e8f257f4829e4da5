-- ===== src/Buffers/Create.antt =====
-- include/condy/provided_buffers.hpp: the constructors and destructors of buffer queues and pools, which
-- take a group id from the runtime, a buffer ring from the kernel and, in a pool that allocates its
-- buffers, memory. `R` is what the kernel keeps for the process. The function that `detail::defer`
-- calls where a constructor throws is a call of `cleanup_`.
pub mod Fill
pub mod Books
pub mod Settle
use condy.Prelude.{
  ℕ, zero, suc, ◌+◌, ◌*◌, ◌%◌, ◌^◌, ◌⊎◌, inl, inr, Bool, true, false, not, Option, none, some, List,
  [], ◌==◌, if◌then◌else◌, replicate, set, bit_and, Outcome, ok, check, ◌>>=◌, ◌>>◌,
}
use condy.Prelude.Words.{bit_ceil}
use condy.Ids.{IdPool, allocate, recycle}
use condy.Buffers.{Pool, Queue}

-- The calls of liburing and the system; a failing call gives its error number, and `0` is success.
pub record Host (R : Type 0) : Type 0 where
  pub io_uring_setup_buf_ring : ℕ → ℕ → ℕ → R → Option ℕ × R
  pub io_uring_free_buf_ring : ℕ → ℕ → R → ℕ × R
  pub io_uring_buf_ring_mask : ℕ → ℕ
  pub mmap : ℕ → R → (ℕ ⊎ ℕ) × R
  pub munmap : ℕ → ℕ → R → ℕ × R

-- The part of a runtime that the group ids come from.
pub record Owner (R : Type 0) : Type 0 where
  pub kernel : R
  pub bgid_pool : IdPool

pub data Thrown : Type 0 where
  exhausted : Thrown
  system_error : ℕ → Thrown

pub record OwnedPool : Type 0 where
  pub pool : Pool
  pub br : Bool
  pub bgid : ℕ
  pub owns_buffers : Bool

pub record OwnedQueue : Type 0 where
  pub queue : Queue
  pub br : Bool
  pub bgid : ℕ

abbrev pub no_bgid : ℕ
no_bgid = 65535

-- `bgid_pool.allocate()`, with what it throws.
abbrev pub caught : {A : Type 0} → Outcome A → Option A
caught (ok a) = some a
caught (Outcome.abort f) = none

abbrev pub group_id : IdPool → Option (ℕ × IdPool)
group_id ids = caught (allocate 0 no_bgid ids)

-- `io_uring_buf_ring_add` of each buffer at its distance from the tail.
unfoldable pub fill : ℕ → ℕ → ℕ → ℕ → List ℕ → List ℕ
fill zero bid tail mask bufs = bufs
fill (suc k) bid tail mask bufs =
    fill k (bid + 1) tail mask (set bufs (bit_and (tail + bid) mask) bid)

-- The ring of the kernel is empty; its entries are filled, and its tail is advanced over them.
unfoldable pub fill_pool : Pool → Pool
unfolding fill
fill_pool p = record p {
  bufs = fill p.num_buffers 0 p.tail p.mask p.bufs;
  tail = (p.tail + p.num_buffers) % 2 ^ 16;
}

module _ {R : Type 0} (h : Host R) where
  unfoldable pub free_ring : Bool → ℕ → ℕ → Owner R → Outcome (Owner R)
  free_ring false entries bgid rt = ok rt
  free_ring true entries bgid rt = do
    let (r, kernel) = h.io_uring_free_buf_ring entries bgid rt.kernel
    check (r == 0)
    ok (record rt { kernel = kernel })

  unfoldable pub recycle_id : ℕ → Owner R → Outcome (Owner R)
  recycle_id bgid rt =
      if bgid == no_bgid
      then ok rt
      else do ids ← recycle 0 no_bgid bgid rt.bgid_pool; ok (record rt { bgid_pool = ids })

  unfoldable pub unmap : Bool → ℕ → ℕ → Owner R → Outcome (Owner R)
  unmap false base size rt = ok rt
  unmap true base size rt = do
    let (r, kernel) = h.munmap base size rt.kernel
    check (r == 0)
    ok (record rt { kernel = kernel })

  -- `BundledProvidedBufferQueue::cleanup_`
  unfoldable pub cleanup_queue : OwnedQueue → Owner R → Outcome (OwnedQueue × Owner R)
  unfolding free_ring recycle_id
  cleanup_queue q rt = do
    rt1 ← free_ring q.br q.queue.capacity q.bgid rt
    rt2 ← recycle_id q.bgid rt1
    ok (record q { br = false }, rt2)

  -- `BundledProvidedBufferPool::cleanup_`
  unfoldable pub cleanup_pool : OwnedPool → Owner R → Outcome (OwnedPool × Owner R)
  unfolding free_ring recycle_id unmap
  cleanup_pool p rt = do
    rt1 ← free_ring p.br p.pool.num_buffers p.bgid rt
    rt2 ← recycle_id p.bgid rt1
    rt3 ← unmap p.owns_buffers p.pool.buffers_base (p.pool.num_buffers * p.pool.buffer_size) rt2
    ok (record p { br = false; owns_buffers = false }, rt3)

  unfoldable pub throw_queue :
      Thrown → OwnedQueue → Owner R → Outcome ((Thrown ⊎ OwnedQueue) × Owner R)
  unfolding cleanup_queue
  throw_queue e q rt = do (gone, rt1) ← cleanup_queue q rt; ok (inl e, rt1)

  unfoldable pub throw_pool :
      Thrown → OwnedPool → Owner R → Outcome ((Thrown ⊎ OwnedPool) × Owner R)
  unfolding cleanup_pool
  throw_pool e p rt = do (gone, rt1) ← cleanup_pool p rt; ok (inl e, rt1)

  -- After `io_uring_setup_buf_ring`.
  unfoldable pub set_up_queue :
      Option ℕ → OwnedQueue → Owner R → Outcome ((Thrown ⊎ OwnedQueue) × Owner R)
  unfolding throw_queue
  set_up_queue (some err) q rt = throw_queue (system_error err) q rt
  set_up_queue none q rt = ok (inr (record q { br = true }), rt)

  unfoldable pub identify_queue :
      Option (ℕ × IdPool) → ℕ → OwnedQueue → Owner R → Outcome ((Thrown ⊎ OwnedQueue) × Owner R)
  unfolding set_up_queue throw_queue
  identify_queue none flags q rt = throw_queue exhausted q rt
  identify_queue (some (bgid, ids)) flags q rt =
      let (err, kernel) = h.io_uring_setup_buf_ring q.queue.capacity bgid flags rt.kernel in
      set_up_queue err (record q { bgid = bgid }) (record { kernel = kernel; bgid_pool = ids })

  -- The members of `BundledProvidedBufferQueue` before its constructor's body; `incremental` says
  -- whether the flags have `IOU_PBUF_RING_INC`.
  unfoldable pub new_queue : ℕ → Bool → OwnedQueue
  new_queue capacity incremental =
      let n = bit_ceil capacity in
      record {
        queue = record {
          tail = 0;
          size = 0;
          capacity = n;
          mask = h.io_uring_buf_ring_mask n;
          buf_lens = replicate n 0;
          incremental = incremental;
        };
        br = false;
        bgid = no_bgid;
      }

  unfoldable pub create_queue : ℕ → ℕ → Bool → Owner R → Outcome ((Thrown ⊎ OwnedQueue) × Owner R)
  unfolding new_queue identify_queue
  create_queue capacity flags incremental rt =
      identify_queue (group_id rt.bgid_pool) flags (new_queue capacity incremental) rt

  unfoldable pub set_up_pool :
      Option ℕ → OwnedPool → Owner R → Outcome ((Thrown ⊎ OwnedPool) × Owner R)
  unfolding throw_pool fill_pool
  set_up_pool (some err) p rt = throw_pool (system_error err) p rt
  set_up_pool none p rt = ok (inr (record p { pool = fill_pool p.pool; br = true }), rt)

  unfoldable pub identify_pool :
      Option (ℕ × IdPool) → ℕ → OwnedPool → Owner R → Outcome ((Thrown ⊎ OwnedPool) × Owner R)
  unfolding set_up_pool throw_pool
  identify_pool none flags p rt = throw_pool exhausted p rt
  identify_pool (some (bgid, ids)) flags p rt =
      let (err, kernel) = h.io_uring_setup_buf_ring p.pool.num_buffers bgid flags rt.kernel in
      set_up_pool err (record p { bgid = bgid }) (record { kernel = kernel; bgid_pool = ids })

  -- The members of `BundledProvidedBufferPool`; `buffer_size_` and `curr_buf_len_` have 32 bits.
  unfoldable pub new_pool : ℕ → ℕ → ℕ → Bool → Bool → OwnedPool
  new_pool buffer_data num_buffers buffer_size incremental owns_buffers =
      let n = bit_ceil num_buffers in
      record {
        pool = record {
          bufs = replicate n 0;
          tail = 0;
          br_head = 0;
          mask = h.io_uring_buf_ring_mask n;
          num_buffers = n;
          buffers_base = buffer_data;
          buffer_size = buffer_size % 2 ^ 32;
          curr_buf_len = buffer_size % 2 ^ 32;
          incremental = incremental;
        };
        br = false;
        bgid = no_bgid;
        owns_buffers = owns_buffers;
      }

  -- `BundledProvidedBufferPool`
  unfoldable pub create_bundled_pool :
      ℕ → ℕ → ℕ → ℕ → Bool → Bool → Owner R → Outcome ((Thrown ⊎ OwnedPool) × Owner R)
  unfolding new_pool identify_pool
  create_bundled_pool buffer_data num_buffers buffer_size flags incremental owns_buffers rt =
      identify_pool (group_id rt.bgid_pool) flags
        (new_pool buffer_data num_buffers buffer_size incremental owns_buffers) rt

  unfoldable pub allocated_pool :
      (ℕ ⊎ ℕ) → ℕ → ℕ → ℕ → Bool → Owner R → Outcome ((Thrown ⊎ OwnedPool) × Owner R)
  unfolding create_bundled_pool
  allocated_pool (inl err) num_buffers buffer_size flags incremental rt =
      ok (inl (system_error err), rt)
  allocated_pool (inr buf_data) num_buffers buffer_size flags incremental rt =
      create_bundled_pool buf_data num_buffers buffer_size flags incremental true rt

  -- `ProvidedBufferPool` that allocates its buffers.
  unfoldable pub create_pool : ℕ → ℕ → ℕ → Bool → Owner R → Outcome ((Thrown ⊎ OwnedPool) × Owner R)
  unfolding allocated_pool
  create_pool num_buffers buffer_size flags incremental rt =
      let (mapped, kernel) = h.mmap (bit_ceil num_buffers * buffer_size % 2 ^ 64) rt.kernel in
      allocated_pool mapped num_buffers buffer_size flags incremental
        (record rt { kernel = kernel })
