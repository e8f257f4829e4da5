-- ===== src/Zcrx/Create.antt =====
-- include/condy/zcrx.hpp: the constructors and the destructor of a zero-copy receive pool, which map
-- memory for the buffers and the refill ring, and register a queue of a network interface. `R` is what the
-- kernel keeps for the process. `detail::defer` calls `cleanup_` where a constructor throws.
pub mod Mappings
pub mod Settle
use condy.Prelude.{
  ℕ, zero, suc, ◌+◌, ◌-◌, ◌*◌, ◌%◌, ◌^◌, ◌⊎◌, inl, inr, Bool, true, false, not, Option, none, some,
  ltb, ◌==◌, if◌then◌else◌, List, Outcome, ok, check, ◌>>=◌, ◌>>◌,
}
use condy.Prelude.Words.{bit_ceil, size_max, add_size}
use condy.Zcrx.{ZcrxPool, Rqe}
use condy.Zcrx.Align.{align_up}

pub record ZeroCopyRxArea : Type 0 where
  pub addr : ℕ
  pub size : ℕ

pub record ZeroCopyRxDmaBufArea : Type 0 where
  pub dmabuf_fd : ℕ
  pub offset : ℕ
  pub size : ℕ

-- `io_uring_zcrx_area_reg`; `dmabuf` is the flag `IORING_ZCRX_AREA_DMABUF`.
pub record AreaReg : Type 0 where
  pub addr : ℕ
  pub len : ℕ
  pub dmabuf : Bool

-- `io_uring_zcrx_ifq_reg` with the size of its region; `no_device` is the flag `ZCRX_REG_NODEV`.
pub record IfqReg : Type 0 where
  pub if_idx : ℕ
  pub if_rxq : ℕ
  pub rq_entries : ℕ
  pub area : AreaReg
  pub region_size : ℕ
  pub no_device : Bool

-- What the kernel writes into the three structures.
pub record Registered : Type 0 where
  pub rq_entries : ℕ
  pub head : ℕ
  pub tail : ℕ
  pub rqes : ℕ
  pub zcrx_id : ℕ
  pub rq_area_token : ℕ
  pub mmap_offset : ℕ

-- The calls of liburing and the system; a failing call gives its error number, and `0` is success. A
-- mapping is anonymous, or of the file of the ring at an offset.
pub record ZcrxHost (R : Type 0) : Type 0 where
  pub page_size : ℕ
  pub rqe_size : ℕ
  pub io_uring_register_ifq : IfqReg → R → (ℕ ⊎ Registered) × R
  pub mmap : Option ℕ → ℕ → R → (ℕ ⊎ ℕ) × R
  pub munmap : ℕ → ℕ → R → ℕ × R

-- The members of the pool; an address `0` is null, and `khead`, `ktail` and `rqes` are addresses.
pub record OwnedZcrx : Type 0 where
  pub area_size : ℕ
  pub area_ptr : ℕ
  pub ring_size : ℕ
  pub khead : ℕ
  pub ktail : ℕ
  pub rqes : ℕ
  pub rq_tail : ℕ
  pub ring_entries : ℕ
  pub ring_ptr : ℕ
  pub zcrx_id : ℕ
  pub area_token : ℕ
  pub no_device : Bool

abbrev pub map_failed : ℕ
map_failed = 2 ^ 64 - 1

-- The members before a constructor's body.
unfoldable pub new_zcrx : Bool → OwnedZcrx
new_zcrx no_device = record {
  area_size = 0;
  area_ptr = 0;
  ring_size = 0;
  khead = 0;
  ktail = 0;
  rqes = 0;
  rq_tail = 0;
  ring_entries = 0;
  ring_ptr = 0;
  zcrx_id = 0;
  area_token = 0;
  no_device = no_device;
}

-- The pool as its operations see it, where the memory of its ring has these entries and this head.
unfoldable pub opened : List Rqe → ℕ → OwnedZcrx → ZcrxPool
opened rqes khead p = record {
  area_ptr = p.area_ptr;
  area_token = p.area_token;
  no_device = p.no_device;
  ring_entries = p.ring_entries;
  rqes = rqes;
  rq_tail = p.rq_tail;
  khead = khead;
  ktail = khead;
  flushes = 0;
}

module _ {R : Type 0} (h : ZcrxHost R) where
  -- `munmap` with the assertion after it.
  unfoldable pub unmap_region : Bool → ℕ → ℕ → R → Outcome R
  unmap_region false base size r = ok r
  unmap_region true base size r = do let (e, r1) = h.munmap base size r; check (e == 0); ok r1

  -- `cleanup_`
  unfoldable pub cleanup_zcrx : OwnedZcrx → R → Outcome R
  unfolding unmap_region
  cleanup_zcrx p r = do
    r1 ←
        unmap_region (if p.area_ptr == 0 then false else ltb 0 p.area_size) p.area_ptr p.area_size r
    unmap_region (not (p.ring_ptr == 0)) p.ring_ptr p.ring_size r1

  unfoldable pub get_refill_ring_size : ℕ → Outcome ℕ
  unfolding align_up
  get_refill_ring_size rq_entries =
      align_up (add_size (rq_entries * h.rqe_size % size_max) h.page_size) h.page_size

  -- After the `mmap` of the refill ring; `none` says that nothing is thrown.
  unfoldable pub map_ring : Registered → (ℕ ⊎ ℕ) → OwnedZcrx → R → Option ℕ × OwnedZcrx × R
  map_ring reg (inl err) p r = (some err, p, r)
  map_ring reg (inr ring_ptr) p r = (
    none,
    record p {
      khead = add_size ring_ptr reg.head;
      ktail = add_size ring_ptr reg.tail;
      rqes = add_size ring_ptr reg.rqes;
      rq_tail = 0;
      ring_entries = reg.rq_entries;
      ring_ptr = ring_ptr;
      zcrx_id = reg.zcrx_id;
      area_token = reg.rq_area_token;
    },
    r,
  )

  -- After `io_uring_register_ifq`.
  unfoldable pub with_ifq : (ℕ ⊎ Registered) → OwnedZcrx → R → Option ℕ × OwnedZcrx × R
  unfolding map_ring
  with_ifq (inl err) p r = (some err, p, r)
  with_ifq (inr reg) p r =
      let (mapped, r1) = h.mmap (some reg.mmap_offset) p.ring_size r in map_ring reg mapped p r1

  -- `register_ifq_`
  unfoldable pub register_ifq :
      ℕ → ℕ → ℕ → AreaReg → OwnedZcrx → R → Outcome (Option ℕ × OwnedZcrx × R)
  unfolding get_refill_ring_size with_ifq
  register_ifq if_idx if_rxq rq_entries area p r = do
    let n = bit_ceil rq_entries
    size ← get_refill_ring_size n
    let reg : IfqReg = record {
      if_idx = if_idx;
      if_rxq = if_rxq;
      rq_entries = n;
      area = area;
      region_size = size;
      no_device = p.no_device;
    }
    let (answer, r1) = h.io_uring_register_ifq reg r
    ok (with_ifq answer (record p { ring_size = size }) r1)

  -- The end of a constructor: what it throws, after `cleanup_`, or the pool.
  unfoldable pub close_zcrx : Option ℕ × OwnedZcrx × R → Outcome ((ℕ ⊎ OwnedZcrx) × R)
  unfolding cleanup_zcrx
  close_zcrx (none, p, r) = ok (inr p, r)
  close_zcrx (some err, p, r) = do r1 ← cleanup_zcrx p r; ok (inl err, r1)

  -- After the `mmap` of an area, of `size` bytes.
  unfoldable pub map_area :
      ℕ → ℕ → ℕ → ℕ → (ℕ ⊎ ℕ) → OwnedZcrx → R → Outcome (Option ℕ × OwnedZcrx × R)
  unfolding register_ifq
  map_area if_idx if_rxq rq_entries size (inl err) p r =
      ok (some err, record p { area_size = size; area_ptr = map_failed }, r)
  map_area if_idx if_rxq rq_entries size (inr base) p r =
      register_ifq if_idx if_rxq rq_entries (record { addr = base; len = size; dmabuf = false })
        (record p { area_size = size; area_ptr = base }) r

  -- The constructor for memory, with its flags.
  unfoldable pub create_zcrx : ℕ → ℕ → ℕ → ZeroCopyRxArea → Bool → R → Outcome ((ℕ ⊎ OwnedZcrx) × R)
  unfolding align_up map_area register_ifq close_zcrx new_zcrx
  create_zcrx if_idx if_rxq rq_entries area no_device r =
      if area.addr == 0
      then (do
        size ← align_up area.size h.page_size
        let (mapped, r1) = h.mmap none size r
        end ← map_area if_idx if_rxq rq_entries size mapped (new_zcrx no_device) r1
        close_zcrx end)
      else (do
        end ←
            register_ifq if_idx if_rxq rq_entries
              (record { addr = area.addr; len = area.size; dmabuf = false })
              (record (new_zcrx no_device) { area_ptr = area.addr }) r
        close_zcrx end)

  -- The constructor for a DMA-BUF.
  unfoldable pub create_dmabuf :
      ℕ → ℕ → ℕ → ZeroCopyRxDmaBufArea → R → Outcome ((ℕ ⊎ OwnedZcrx) × R)
  unfolding register_ifq close_zcrx new_zcrx
  create_dmabuf if_idx if_rxq rq_entries area r = do
    end ←
        register_ifq if_idx if_rxq rq_entries
          (record { addr = area.offset; len = area.size; dmabuf = true }) (new_zcrx false) r
    close_zcrx end
