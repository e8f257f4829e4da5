-- ===== src/Zcrx/Create/Settle.antt =====
-- include/condy/zcrx.hpp: constructing a zero-copy receive pool either throws and leaves no mapping
-- behind, or gives a pool with an empty refill ring that its destructor unmaps whole.
use condy.Prelude.{
  ℕ, ◌+◌, ◌*◌, ◌^◌, ◌≤◌, ◌<◌, ◌≡◌, refl, sym, ap, ◌∙◌, ◌⊎◌, inl, inr, Bool, true, false, none, some,
  List, ◌∷◌, Bool-cases, lt→ltb, ◌==◌, ==_ne, ==_iff, assertion, Outcome, ok, abort, ◌>>=◌, arith,
}
use mathlib.Core.Path.{subst}
use condy.Prelude.Words.{bit_ceil, bit_ceil-le}
use condy.Buffers.Create.Books.{with_map}
use condy.Zcrx.Align.{Aligned}
use condy.Zcrx.Create.{
  ZeroCopyRxArea, ZeroCopyRxDmaBufArea, AreaReg, IfqReg, Registered, ZcrxHost, OwnedZcrx,
  map_failed, new_zcrx, unmap_region, cleanup_zcrx, map_ring, with_ifq, register_ifq, close_zcrx,
  map_area, create_zcrx, create_dmabuf,
}
use condy.Zcrx.Create.Mappings.{
  IsZcrxHost, Below, Below-lt, has_area, has_ring, mappings, IsRing, ringed, ringed-IsRing,
  cleanup_zcrx-maps, align_up-pages, get_refill_ring_size-Aligned,
}

module _ {R : Type 0} (h : ZcrxHost R) (maps : R → List (ℕ × ℕ)) (host : IsZcrxHost h maps) where
  -- What a constructor leaves.
  abbrev pub Settled : ℕ → List (ℕ × ℕ) → (ℕ ⊎ OwnedZcrx) → R → Type 0
  Settled n ms (inl e) r = maps r ≡ ms
  Settled n ms (inr p) r =
      (maps r ≡ mappings p ms)
      × IsRing h.page_size n p
      × ((r1 : R) × (cleanup_zcrx h p r ≡ ok r1) × (maps r1 ≡ ms))

  abbrev pub Settles : ℕ → List (ℕ × ℕ) → Outcome ((ℕ ⊎ OwnedZcrx) × R) → Type 0
  Settles n ms m = (x : ℕ ⊎ OwnedZcrx) × (r1 : R) × (m ≡ ok (x, r1)) × Settled n ms x r1

  -- The members of a pool when its queue is registered, where `size` and `area` are those of its area.
  abbrev begun : ℕ → ℕ → Bool → OwnedZcrx
  unfolding new_zcrx
  begun size area no_device = record (new_zcrx no_device) { area_size = size; area_ptr = area }

  close_zcrx-throws :
      (n err : ℕ) (p : OwnedZcrx) (ms : List (ℕ × ℕ)) (r : R)
      → Below (has_area p) p.area_ptr
      → Below (has_ring p) p.ring_ptr
      → maps r ≡ mappings p ms
      → Settles n ms (close_zcrx h (some err, p, r))
  unfolding close_zcrx
  close_zcrx-throws n err p ms r a b eq =
      let (r1, e, m) = cleanup_zcrx-maps h maps host p ms r a b eq in (inl err, r1, simp e, m)

  -- A pool whose area is mapped or not its own, from the registration on.
  module _ (n size area : ℕ) (no_device : Bool) (ms : List (ℕ × ℕ)) (few : n ≤ 2 ^ 30)
      (area_in : Below (has_area (begun size area no_device)) area) where
    -- With a ring of `ring_size` bytes, not mapped yet.
    abbrev sized : ℕ → OwnedZcrx
    sized ring_size = record (begun size area no_device) { ring_size = ring_size }

    close_zcrx-ringed :
        (x : Registered) (ring_size base : ℕ) (r : R)
        → x.rq_entries ≡ bit_ceil n
        → Aligned (bit_ceil n * 16 + h.page_size) h.page_size ring_size
        → 0 < base
        → base < map_failed
        → maps r ≡ (base, ring_size) ∷ mappings (sized ring_size) ms
        → Settles n ms (close_zcrx h (none, ringed x base (sized ring_size), r))
    unfolding close_zcrx new_zcrx
    close_zcrx-ringed x ring_size base r same aligned pos below eq =
        let p : OwnedZcrx = ringed x base (sized ring_size) in
        let there : (base == 0) ≡ false = ==_ne base 0 (omega arith) in
        let all : mappings p ms ≡ (base, ring_size) ∷ mappings (sized ring_size) ms = simp there in
        (
          inr p,
          r,
          refl,
          (
            eq ∙ sym all,
            ringed-IsRing h.page_size n x base (sized ring_size) few same aligned,
            cleanup_zcrx-maps h maps host p ms r area_in (Below-lt (has_ring p) base below)
                (eq ∙ sym all),
          ),
        )

    with_ifq-Settles :
        (answer : ℕ ⊎ Registered) (ring_size : ℕ) (r : R)
        → ((x : Registered) × (answer ≡ inr x) × (x.rq_entries ≡ bit_ceil n))
          ⊎ ((e : ℕ) × (answer ≡ inl e))
        → Aligned (bit_ceil n * 16 + h.page_size) h.page_size ring_size
        → maps r ≡ mappings (sized ring_size) ms
        → Settles n ms (close_zcrx h (with_ifq h answer (sized ring_size) r))
    unfolding with_ifq map_ring new_zcrx
    with_ifq-Settles answer ring_size r (inr (e, eq)) aligned m =
        simp eq (close_zcrx-throws n e (sized ring_size) ms r area_in tt m)
    with_ifq-Settles answer ring_size r (inl (x, eq, same)) aligned m =
        let r1 : R = (h.mmap (some x.mmap_offset) ring_size r).1 in
        elim (host.mapped (some x.mmap_offset) ring_size r) [
          | inl (base, e, pos, below, m1) ↦
              simp (eq, e)
                (close_zcrx-ringed x ring_size base r1 same aligned pos below
                  (m1 ∙ ap (◌∷◌ (base, ring_size)) m))
          | inr (err, e, m1) ↦
              simp (eq, e) (close_zcrx-throws n err (sized ring_size) ms r1 area_in tt (m1 ∙ m))
        ]

    register_ifq-Settles :
        (if_idx if_rxq : ℕ) (reg : AreaReg) (r : R)
        → maps r ≡ mappings (begun size area no_device) ms
        → Settles n ms
            (register_ifq h if_idx if_rxq n reg (begun size area no_device) r >>= close_zcrx h)
    unfolding register_ifq new_zcrx
    register_ifq-Settles if_idx if_rxq reg r m =
        let (ring_size, e, aligned) =
          get_refill_ring_size-Aligned h maps host (bit_ceil n)
            (bit_ceil-le n (2 ^ 31) (omega arith) (omega arith)) in
        let ifq : IfqReg = record {
          if_idx = if_idx;
          if_rxq = if_rxq;
          rq_entries = bit_ceil n;
          area = reg;
          region_size = ring_size;
          no_device = no_device;
        } in
        let (m1, way) = host.registered ifq r in
        simp e (
          with_ifq-Settles (h.io_uring_register_ifq ifq r).0 ring_size
            (h.io_uring_register_ifq ifq r).1 way aligned (m1 ∙ m))

  map_area-Settles :
      (n size base if_idx if_rxq : ℕ) (no_device : Bool) (ms : List (ℕ × ℕ)) (r : R)
      → n ≤ 2 ^ 30
      → 0 < size
      → 0 < base
      → base < map_failed
      → maps r ≡ (base, size) ∷ ms
      → Settles n ms
          (map_area h if_idx if_rxq n size (inr base) (new_zcrx no_device) r >>= close_zcrx h)
  unfolding map_area new_zcrx
  map_area-Settles n size base if_idx if_rxq no_device ms r few long pos below eq =
      let all : mappings (begun size base no_device) ms ≡ (base, size) ∷ ms =
        simp (==_ne base 0 (omega arith), lt→ltb 0 size long) in
      register_ifq-Settles n size base no_device ms few
        (Below-lt (has_area (begun size base no_device)) base below) if_idx if_rxq
        (record { addr = base; len = size; dmabuf = false }) r (eq ∙ sym all)

  -- The assertion after `munmap` fails.
  map_area-aborts :
      (n size err if_idx if_rxq : ℕ) (no_device : Bool) (r : R)
      → 0 < size
      → map_area h if_idx if_rxq n size (inl err) (new_zcrx no_device) r >>= close_zcrx h
        ≡ abort assertion
  unfolding map_area close_zcrx cleanup_zcrx unmap_region
  map_area-aborts n size err if_idx if_rxq no_device r long =
      simp (lt→ltb 0 size long, host.refused size r)

  abbrev pub Sized : (ZeroCopyRxArea ⊎ ZeroCopyRxDmaBufArea) → Type 0
  Sized (inl area) = (0 < area.size) × (area.size + h.page_size ≤ 2 ^ 64)
  Sized (inr area) = Unit

  -- A constructor, for memory or for a DMA-BUF.
  abbrev pub construct :
      ℕ → ℕ → ℕ → (ZeroCopyRxArea ⊎ ZeroCopyRxDmaBufArea) → Bool → R → Outcome ((ℕ ⊎ OwnedZcrx) × R)
  construct if_idx if_rxq n (inl area) no_device r = create_zcrx h if_idx if_rxq n area no_device r
  construct if_idx if_rxq n (inr area) no_device r = create_dmabuf h if_idx if_rxq n area r

  -- What a constructor does: it settles, or the `mmap` of an area that it allocates has failed.
  abbrev pub Ends :
      ℕ
      → List (ℕ × ℕ)
      → (ZeroCopyRxArea ⊎ ZeroCopyRxDmaBufArea)
      → R
      → Outcome ((ℕ ⊎ OwnedZcrx) × R)
      → Type 0
  Ends n ms area r m =
      Settles n ms m
      ⊎ (m ≡ abort assertion)
        × ((a : ZeroCopyRxArea) × (size e : ℕ) × (area ≡ inl a)
            × (a.addr ≡ 0)
            × ((h.mmap none size r).0 ≡ inl e))

  -- The constructor that allocates its area.
  allocated-Ends :
      (if_idx if_rxq n : ℕ) (area : ZeroCopyRxArea) (no_device : Bool) (ms : List (ℕ × ℕ)) (r : R)
      → n ≤ 2 ^ 30
      → 0 < area.size
      → area.size + h.page_size ≤ 2 ^ 64
      → area.addr ≡ 0
      → maps r ≡ ms
      → Ends n ms (inl area) r (create_zcrx h if_idx if_rxq n area no_device r)
  unfolding create_zcrx
  allocated-Ends if_idx if_rxq n area no_device ms r few some_size fits null eq =
      let (size, e, aligned) = align_up-pages h maps host area.size fits in
      let long : 0 < size = omega (arith, aligned.enough) in
      let here : (area.addr == 0) ≡ true = simp null in
      let r1 : R = (h.mmap none size r).1 in
      elim (host.mapped none size r) [
        | inl (base, got, pos, below, m) ↦
            let (x, r2, done, settled) =
              map_area-Settles n size base if_idx if_rxq no_device ms r1 few long pos below
                (m ∙ ap (◌∷◌ (base, size)) eq) in
            inl (x, r2, simp (here, e, got) done, settled)
        | inr (err, got, m) ↦ inr (
          simp (here, e, got) (map_area-aborts n size err if_idx if_rxq no_device r1 long),
          (area, size, err, refl, null, got),
        )
      ]

  -- Where liburing and the system do what is documented of them, constructing a pool with up to `2 ^ 30` entries, on memory
  -- that it allocates, on given memory or on a DMA-BUF, ends in one of three ways. It throws, and no mapping is
  -- left over; or it gives a pool whose refill ring, in whole pages, has room for the entries and is empty when its
  -- memory is new, and whose destructor unmaps all that was mapped, without a failed assertion; or the `mmap` of the
  -- area failed, and then the assertion of `cleanup_` fails.
  pub construct-Ends :
      (if_idx if_rxq n : ℕ) (area : ZeroCopyRxArea ⊎ ZeroCopyRxDmaBufArea) (no_device : Bool)
      (ms : List (ℕ × ℕ)) (r : R)
      → n ≤ 2 ^ 30
      → Sized area
      → maps r ≡ ms
      → Ends n ms area r (construct if_idx if_rxq n area no_device r)
  unfolding create_zcrx create_dmabuf new_zcrx
  construct-Ends if_idx if_rxq n (inr area) no_device ms r few _ eq = inl (
      register_ifq-Settles n 0 0 false ms few tt if_idx if_rxq
        (record { addr = area.offset; len = area.size; dmabuf = true }) r eq)
  construct-Ends if_idx if_rxq n (inl area) no_device ms r few (some_size, fits) eq =
      elim (Bool-cases (area.addr == 0)) [
        | inr given ↦
            let none_own : has_area (begun 0 area.addr no_device) ≡ false = simp given in
            let (x, r1, done, settled) =
              register_ifq-Settles n 0 area.addr no_device ms few
                (subst (λ (b : Bool). Below b area.addr) (sym none_own) tt) if_idx if_rxq
                (record { addr = area.addr; len = area.size; dmabuf = false }) r
                (eq ∙ ap (λ (b : Bool). with_map b (area.addr, 0) ms) (sym none_own)) in
            inl (x, r1, simp given done, settled)
        | inl null ↦
            allocated-Ends if_idx if_rxq n area no_device ms r few some_size fits
              ((==_iff area.addr 0).0 null) eq
      ]
