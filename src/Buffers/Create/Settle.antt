-- ===== src/Buffers/Create/Settle.antt =====
-- include/condy/provided_buffers.hpp: constructing a pool either throws and leaves nothing behind, or
-- gives a pool whose buffers are all with the kernel; its destructor gives everything back.
use condy.Prelude.{
  ℕ, ◌*◌, ◌%◌, ◌^◌, ◌≤◌, ◌<◌, ◌≡◌, refl, sym, ap, ◌∙◌, ◌⊎◌, inl, inr, Bool, true, some, List, [],
  ◌∷◌, Outcome, ok, arith,
}
use native.Mathlib.Nat.{mul-le-mul_right}
use condy.Prelude.Words.{bit_ceil, bit_ceil-le}
use condy.Ids.{IdPool}
use condy.Ids.Unique.{Accounts, allocate-Accounts}
use condy.Buffers.Ring.{Area}
use condy.Buffers.Custody.Keeps.{Custody}
use condy.Buffers.Create.{
  Host, Owner, Thrown, exhausted, system_error, OwnedPool, no_bgid, fill_pool, throw_pool,
  set_up_pool, identify_pool, new_pool, create_bundled_pool, allocated_pool, create_pool,
}
use condy.Buffers.Create.Fill.{fill_pool-Custody}
use condy.Buffers.Create.Books.{
  with_map, IsHost, Books, memory, Cleaned, unnamed-Cleaned, ringless-Cleaned, whole-Cleaned,
}

-- The size that is mapped is the size that is unmapped.
whole_size :
    (num size : ℕ)
    → num ≤ 2 ^ 31
    → size < 2 ^ 32
    → bit_ceil num * size % 2 ^ 64 ≡ bit_ceil num * (size % 2 ^ 32)
whole_size num size fits short =
    let few : bit_ceil num ≤ 2 ^ 32 = bit_ceil-le num (2 ^ 32) (omega arith) (omega arith) in
    let below : bit_ceil num * size ≤ 2 ^ 32 * size = mul-le-mul_right size few in
    let same : size % 2 ^ 32 ≡ size = omega arith in
    let all : bit_ceil num * size % 2 ^ 64 ≡ bit_ceil num * size = omega arith in
    all ∙ ap (λ (t : ℕ). bit_ceil num * t) (sym same)

module _ {R : Type 0} (h : Host R) (groups : R → List ℕ) (maps : R → List (ℕ × ℕ))
    (host : IsHost h groups maps) where
  abbrev pub area_of : OwnedPool → Area
  area_of p = record {
    base = p.pool.buffers_base;
    size = p.pool.buffer_size;
    number = p.pool.num_buffers;
  }

  -- What a constructor leaves: after a throw, all as before; else a new group, whose buffers are all with
  -- the kernel, and a destructor that leaves all as before.
  abbrev pub Settled : List ℕ → List (ℕ × ℕ) → List ℕ → (Thrown ⊎ OwnedPool) → Owner R → Type 0
  Settled gs ms out (inl e) rt = Books h groups maps host gs ms out rt
  Settled gs ms out (inr p) rt =
      Books h groups maps host (p.bgid ∷ gs) (memory h groups maps host p ms) (p.bgid ∷ out) rt
      × Custody (area_of p) (record { pool = p.pool; held = [] })
      × Cleaned h groups maps host p gs ms out rt

  abbrev pub Settles :
      List ℕ → List (ℕ × ℕ) → List ℕ → Outcome ((Thrown ⊎ OwnedPool) × Owner R) → Type 0
  Settles gs ms out m =
      (x : Thrown ⊎ OwnedPool) × (rt1 : Owner R) × (m ≡ ok (x, rt1)) × Settled gs ms out x rt1

  throw_pool-Settles :
      (e : Thrown) (p : OwnedPool) (gs : List ℕ) (ms : List (ℕ × ℕ)) (out : List ℕ) (rt : Owner R)
      → Cleaned h groups maps host p gs ms out rt
      → Settles gs ms out (throw_pool h e p rt)
  unfolding throw_pool
  throw_pool-Settles e p gs ms out rt (p1, rt1, eq, b) = (inl e, rt1, simp eq, b)

  module _ (buffer_data num size flags : ℕ) (incremental owns : Bool) (gs : List ℕ)
      (ms : List (ℕ × ℕ)) (out : List ℕ) (some_size : 0 < size % 2 ^ 32) (fits : num ≤ 2 ^ 31) where
    abbrev start : OwnedPool
    unfolding new_pool
    start = new_pool h buffer_data num size incremental owns

    identified :
        (bgid : ℕ) (ids : IdPool) (rt : Owner R)
        → bgid < no_bgid
        → Accounts 0 no_bgid (bgid ∷ out) ids
        → groups rt.kernel ≡ gs
        → maps rt.kernel ≡ with_map owns (buffer_data, bit_ceil num * (size % 2 ^ 32)) ms
        → Settles gs ms out (
            identify_pool h
              (some (bgid, ids))
              flags
              (new_pool h buffer_data num size incremental owns)
              rt)
    unfolding identify_pool set_up_pool new_pool
    identified bgid ids rt below accounts g m =
        let p : OwnedPool = record start { bgid = bgid } in
        let (kept, way) = host.set_up (bit_ceil num) bgid flags rt.kernel in
        let k : R = (h.io_uring_setup_buf_ring (bit_ceil num) bgid flags rt.kernel).1 in
        let rt1 : Owner R = record { kernel = k; bgid_pool = ids } in
        elim way [
          | inl (e, g1, few) ↦
              let p1 : OwnedPool = record p { pool = fill_pool p.pool; br = true } in
              let b : Books h groups maps host (bgid ∷ gs) (memory h groups maps host p ms)
                  (bgid ∷ out) rt1 =
                record { groups_are = g1 ∙ ap (◌∷◌ bgid) g; maps_are = kept ∙ m; ids = accounts } in
              (
                inr p1,
                rt1,
                simp e,
                (
                  b,
                  fill_pool-Custody p.pool num (size % 2 ^ 32) refl refl refl
                      (host.mask (bit_ceil num)) refl refl refl fits few some_size,
                  whole-Cleaned h groups maps host p1 gs ms out rt1 refl below b,
                ),
              )
          | inr (err, e, g1) ↦
              let b : Books h groups maps host gs (memory h groups maps host p ms) (bgid ∷ out)
                  rt1 =
                record { groups_are = g1 ∙ g; maps_are = kept ∙ m; ids = accounts } in
              let (x, rt2, eq, settled) =
                throw_pool-Settles (system_error err) p gs ms out rt1
                  (ringless-Cleaned h groups maps host p gs ms out rt1 refl below b) in
              (x, rt2, simp e eq, settled)
        ]

    create_bundled_pool-Settles :
        (rt : Owner R)
        → Books h groups maps host gs
            (with_map owns (buffer_data, bit_ceil num * (size % 2 ^ 32)) ms)
            out
            rt
        → Settles gs ms out (create_bundled_pool h buffer_data num size flags incremental owns rt)
    unfolding create_bundled_pool identify_pool
    create_bundled_pool-Settles rt b = elim (allocate-Accounts 0 no_bgid out rt.bgid_pool b.ids) [
      | inl (e, _, _) ↦
          let (x, rt2, eq, settled) =
            throw_pool-Settles exhausted (new_pool h buffer_data num size incremental owns) gs ms
              out rt
              (unfold new_pool in
                unnamed-Cleaned h groups maps host start gs ms out rt refl refl b) in
          (x, rt2, simp e eq, settled)
      | inr (bgid, ids, e, _, below, _, accounts, _) ↦
          let (x, rt2, eq, settled) =
            identified bgid ids rt below accounts b.groups_are b.maps_are in
          (x, rt2, simp e eq, settled)
    ]

  -- Where liburing and the system do what is documented of them, constructing a pool that allocates its buffers,
  -- up to `2 ^ 31` of them and each below 4 GiB and not empty, fails no assertion. If it throws, then no buffer group,
  -- no mapping and no group id is left over. If it does not, then there is one more group, mapping and
  -- id, each of its buffers is with the kernel, and the destructor gives all three back.
  pub create_pool-Settles :
      (num size flags : ℕ) (incremental : Bool) (gs : List ℕ) (ms : List (ℕ × ℕ)) (out : List ℕ)
      (rt : Owner R)
      → num ≤ 2 ^ 31
      → 0 < size
      → size < 2 ^ 32
      → Books h groups maps host gs ms out rt
      → Settles gs ms out (create_pool h num size flags incremental rt)
  unfolding create_pool allocated_pool
  create_pool-Settles num size flags incremental gs ms out rt fits some_size short b =
      let wide : ℕ = bit_ceil num * size % 2 ^ 64 in
      let k : R = (h.mmap wide rt.kernel).1 in
      let rt1 : Owner R = record rt { kernel = k } in
      let (g, way) = host.mapped wide rt.kernel in
      elim way [
        | inl (base, e, m) ↦
            let (x, rt2, eq, settled) =
              create_bundled_pool-Settles base num size flags incremental true gs ms out
                (omega arith) fits rt1
                (record {
                  groups_are = g ∙ b.groups_are;
                  maps_are =
                      m
                      ∙ ap (λ (n : ℕ). (base, n) ∷ maps rt.kernel) (whole_size num size fits short)
                      ∙ ap (◌∷◌ (base, bit_ceil num * (size % 2 ^ 32))) b.maps_are;
                  ids = b.ids;
                }) in
            (x, rt2, simp e eq, settled)
        | inr (err, e, m) ↦ (
          inl (system_error err),
          rt1,
          simp e,
          record { groups_are = g ∙ b.groups_are; maps_are = m ∙ b.maps_are; ids = b.ids },
        )
      ]
