-- ===== src/Buffers/Create/Books.antt =====
-- include/condy/provided_buffers.hpp: what the kernel, the process and the runtime keep of a pool, and
-- how `cleanup_` gives it back.
use condy.Prelude.{
  ℕ, ◌-◌, ◌*◌, ◌^◌, ◌≤◌, ◌<◌, ◌≡◌, refl, ◌∙◌, ◌⊎◌, inl, inr, Bool, true, false, none, some, List,
  [], ◌∷◌, ==_ne, ok, arith,
}
use condy.Ids.Unique.{Accounts, recycle-Accounts}
use condy.Buffers.Create.{
  Host, Owner, OwnedPool, no_bgid, free_ring, recycle_id, unmap, cleanup_pool,
}

abbrev pub with_map : Bool → ℕ × ℕ → List (ℕ × ℕ) → List (ℕ × ℕ)
with_map true m ms = m ∷ ms
with_map false m ms = ms

-- What is documented of the calls: `groups` are the buffer groups that are registered, `maps` the
-- mappings that the process has.
pub record IsHost {R : Type 0} (h : Host R) (groups : R → List ℕ) (maps : R → List (ℕ × ℕ))
    : Type 0 where
  pub mask : (n : ℕ) → h.io_uring_buf_ring_mask n ≡ n - 1
  pub set_up :
      (n bgid flags : ℕ) (r : R)
      → let (err, r1) = h.io_uring_setup_buf_ring n bgid flags r in
        (maps r1 ≡ maps r)
        × ((err ≡ none) × (groups r1 ≡ bgid ∷ groups r) × (n ≤ 2 ^ 15)
            ⊎ ((e : ℕ) × (err ≡ some e) × (groups r1 ≡ groups r)))
  pub freed :
      (n bgid : ℕ) (r : R) (gs : List ℕ)
      → groups r ≡ bgid ∷ gs
      → let (e, r1) = h.io_uring_free_buf_ring n bgid r in
        (e ≡ 0) × (groups r1 ≡ gs) × (maps r1 ≡ maps r)
  pub mapped :
      (size : ℕ) (r : R)
      → let (m, r1) = h.mmap size r in
        (groups r1 ≡ groups r)
        × (((p : ℕ) × (m ≡ inr p) × (maps r1 ≡ (p, size) ∷ maps r))
            ⊎ ((e : ℕ) × (m ≡ inl e) × (maps r1 ≡ maps r)))
  pub unmapped :
      (base size : ℕ) (r : R) (ms : List (ℕ × ℕ))
      → maps r ≡ (base, size) ∷ ms
      → let (e, r1) = h.munmap base size r in (e ≡ 0) × (groups r1 ≡ groups r) × (maps r1 ≡ ms)

module _ {R : Type 0} (h : Host R) (groups : R → List ℕ) (maps : R → List (ℕ × ℕ))
    (host : IsHost h groups maps) where
  -- The runtime has these groups registered, these mappings, and its pool of ids is in order with `out`
  -- in use.
  pub record Books (gs : List ℕ) (ms : List (ℕ × ℕ)) (out : List ℕ) (rt : Owner R) : Type 0 where
    pub groups_are : groups rt.kernel ≡ gs
    pub maps_are : maps rt.kernel ≡ ms
    pub ids : Accounts 0 no_bgid out rt.bgid_pool

  free_ring-Books :
      (n bgid : ℕ) (gs : List ℕ) (ms : List (ℕ × ℕ)) (out : List ℕ) (rt : Owner R)
      → Books (bgid ∷ gs) ms out rt
      → (rt1 : Owner R) × (free_ring h true n bgid rt ≡ ok rt1) × Books gs ms out rt1
  unfolding free_ring
  free_ring-Books n bgid gs ms out rt b =
      let (e, g, m) = host.freed n bgid rt.kernel gs b.groups_are in
      (
        record rt { kernel = (h.io_uring_free_buf_ring n bgid rt.kernel).1 },
        simp e,
        record { groups_are = g; maps_are = m ∙ b.maps_are; ids = b.ids },
      )

  recycle_id-Books :
      (bgid : ℕ) (gs : List ℕ) (ms : List (ℕ × ℕ)) (out : List ℕ) (rt : Owner R)
      → bgid < no_bgid
      → Books gs ms (bgid ∷ out) rt
      → (rt1 : Owner R) × (recycle_id h bgid rt ≡ ok rt1) × Books gs ms out rt1
  unfolding recycle_id
  recycle_id-Books bgid gs ms out rt below b =
      let (ids, e, a, _, _) = recycle-Accounts 0 no_bgid [] out bgid rt.bgid_pool b.ids in
      (
        record rt { bgid_pool = ids },
        simp (==_ne bgid no_bgid (omega arith), e),
        record { groups_are = b.groups_are; maps_are = b.maps_are; ids = a },
      )

  unmap-Books :
      (owns : Bool) (base size : ℕ) (gs : List ℕ) (ms : List (ℕ × ℕ)) (out : List ℕ) (rt : Owner R)
      → Books gs (with_map owns (base, size) ms) out rt
      → (rt1 : Owner R) × (unmap h owns base size rt ≡ ok rt1) × Books gs ms out rt1
  unfolding unmap
  unmap-Books false base size gs ms out rt b = (rt, refl, b)
  unmap-Books true base size gs ms out rt b =
      let (e, g, m) = host.unmapped base size rt.kernel ms b.maps_are in
      (
        record rt { kernel = (h.munmap base size rt.kernel).1 },
        simp e,
        record { groups_are = g ∙ b.groups_are; maps_are = m; ids = b.ids },
      )

  -- The memory of a pool that owns its buffers.
  abbrev pub memory : OwnedPool → List (ℕ × ℕ) → List (ℕ × ℕ)
  memory p ms =
      with_map p.owns_buffers (p.pool.buffers_base, p.pool.num_buffers * p.pool.buffer_size) ms

  abbrev pub Cleaned : OwnedPool → List ℕ → List (ℕ × ℕ) → List ℕ → Owner R → Type 0
  Cleaned p gs ms out rt =
      (p1 : OwnedPool) × (rt1 : Owner R) × (cleanup_pool h p rt ≡ ok (p1, rt1))
      × Books gs ms out rt1

  module _ (p : OwnedPool) (gs : List ℕ) (ms : List (ℕ × ℕ)) (out : List ℕ) (rt : Owner R) where
    -- Before it has a group id.
    pub unnamed-Cleaned :
        p.br ≡ false → p.bgid ≡ no_bgid → Books gs (memory p ms) out rt → Cleaned p gs ms out rt
    unfolding cleanup_pool free_ring recycle_id
    unnamed-Cleaned e none_yet b =
        let size : ℕ = p.pool.num_buffers * p.pool.buffer_size in
        let (rt1, eq, b1) = unmap-Books p.owns_buffers p.pool.buffers_base size gs ms out rt b in
        (record p { br = false; owns_buffers = false }, rt1, simp (e, none_yet, eq), b1)

    -- Before it has a buffer ring.
    pub ringless-Cleaned :
        p.br ≡ false
        → p.bgid < no_bgid
        → Books gs (memory p ms) (p.bgid ∷ out) rt
        → Cleaned p gs ms out rt
    unfolding cleanup_pool free_ring
    ringless-Cleaned e below b =
        let size : ℕ = p.pool.num_buffers * p.pool.buffer_size in
        let (rt1, eq, b1) = recycle_id-Books p.bgid gs (memory p ms) out rt below b in
        let (rt2, eq2, b2) = unmap-Books p.owns_buffers p.pool.buffers_base size gs ms out rt1 b1 in
        (record p { br = false; owns_buffers = false }, rt2, simp (e, eq, eq2), b2)

    -- The destructor.
    pub whole-Cleaned :
        p.br ≡ true
        → p.bgid < no_bgid
        → Books (p.bgid ∷ gs) (memory p ms) (p.bgid ∷ out) rt
        → Cleaned p gs ms out rt
    unfolding cleanup_pool
    whole-Cleaned e below b =
        let size : ℕ = p.pool.num_buffers * p.pool.buffer_size in
        let (rt1, eq, b1) =
          free_ring-Books p.pool.num_buffers p.bgid gs (memory p ms) (p.bgid ∷ out) rt b in
        let (rt2, eq2, b2) = recycle_id-Books p.bgid gs (memory p ms) out rt1 below b1 in
        let (rt3, eq3, b3) = unmap-Books p.owns_buffers p.pool.buffers_base size gs ms out rt2 b2 in
        (record p { br = false; owns_buffers = false }, rt3, simp (e, eq, eq2, eq3), b3)
