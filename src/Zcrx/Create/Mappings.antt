-- ===== src/Zcrx/Create/Mappings.antt =====
-- include/condy/zcrx.hpp: the mappings and the refill ring of a zero-copy receive pool, and how `cleanup_`
-- gives the mappings back.
use condy.Prelude.{
  ℕ, ◌+◌, ◌-◌, ◌*◌, ◌%◌, ◌^◌, ◌≤◌, ◌<◌, ◌≡◌, refl, sym, ap, ◌∙◌, ◌⊎◌, inl, inr, Bool, true, false,
  not, Option, List, [], ◌∷◌, ◌++◌, ltb, ◌==◌, if◌then◌else◌, length, ok, arith,
}
use mathlib.Core.Path.{subst}
use condy.Prelude.Words.{
  pow_fits, bit_ceil, bit_ceil-le, bit_ceil-IsPow2, pow_splits, size_max, add_size,
}
use condy.Buffers.Create.Books.{with_map}
use condy.Zcrx.{Rqe}
use condy.Zcrx.Refill.{Queue}
use condy.Zcrx.Align.{align_up, Aligned, align_up-Aligned}
use condy.Zcrx.Create.{
  IfqReg, Registered, ZcrxHost, OwnedZcrx, map_failed, opened, unmap_region, cleanup_zcrx,
  get_refill_ring_size,
}

-- What is documented of the calls: `maps` are the mappings that the process has.
pub record IsZcrxHost {R : Type 0} (h : ZcrxHost R) (maps : R → List (ℕ × ℕ)) : Type 0 where
  pub log : ℕ
  pub page_is : h.page_size ≡ 2 ^ log
  pub small : h.page_size ≤ 2 ^ 32
  pub rqe_is : h.rqe_size ≡ 16
  pub registered :
      (reg : IfqReg) (r : R)
      → let (answer, r1) = h.io_uring_register_ifq reg r in
        (maps r1 ≡ maps r)
        × (((x : Registered) × (answer ≡ inr x) × (x.rq_entries ≡ reg.rq_entries))
            ⊎ ((e : ℕ) × (answer ≡ inl e)))
  pub mapped :
      (file : Option ℕ) (size : ℕ) (r : R)
      → let (m, r1) = h.mmap file size r in
        ((base : ℕ) × (m ≡ inr base)
          × (0 < base)
          × (base < map_failed)
          × (maps r1 ≡ (base, size) ∷ maps r))
        ⊎ ((e : ℕ) × (m ≡ inl e) × (maps r1 ≡ maps r))
  pub unmapped :
      (base size : ℕ) (r : R) (xs ys : List (ℕ × ℕ))
      → base < map_failed
      → maps r ≡ xs ++ (base, size) ∷ ys
      → let (e, r1) = h.munmap base size r in (e ≡ 0) × (maps r1 ≡ xs ++ ys)
  pub refused : (size : ℕ) (r : R) → ((h.munmap map_failed size r).0 == 0) ≡ false

abbrev pub Below : Bool → ℕ → Type 0
Below true base = base < map_failed
Below false base = Unit

pub Below-lt : (b : Bool) (base : ℕ) → base < map_failed → Below b base
Below-lt true base h = h
Below-lt false base h = tt

with_map-append :
    (b : Bool) (m : ℕ × ℕ) (ms : List (ℕ × ℕ)) → with_map b m [] ++ ms ≡ with_map b m ms
with_map-append true m ms = refl
with_map-append false m ms = refl

abbrev pub has_area : OwnedZcrx → Bool
has_area p = if p.area_ptr == 0 then false else ltb 0 p.area_size

abbrev pub has_ring : OwnedZcrx → Bool
has_ring p = not (p.ring_ptr == 0)

-- The mappings of a pool, with those of the others.
abbrev pub mappings : OwnedZcrx → List (ℕ × ℕ) → List (ℕ × ℕ)
mappings p ms =
    with_map (has_ring p) (p.ring_ptr, p.ring_size)
      (with_map (has_area p) (p.area_ptr, p.area_size) ms)

-- A refill ring for `n` entries, in whole pages, which has an entry for each and one page more; when its
-- memory is new, it is an empty queue.
pub record IsRing (page n : ℕ) (p : OwnedZcrx) : Type 0 where
  pub entries : p.ring_entries ≡ bit_ceil n
  pub room : n ≤ p.ring_entries
  pub pages : Aligned (p.ring_entries * 16 + page) page p.ring_size
  pub empty :
      (d : Rqe) (rqes : List Rqe) → length rqes ≡ p.ring_entries → Queue (opened rqes 0 p) d []

-- The members when the refill ring is mapped.
abbrev pub ringed : Registered → ℕ → OwnedZcrx → OwnedZcrx
ringed reg ring_ptr p = record p {
  khead = add_size ring_ptr reg.head;
  ktail = add_size ring_ptr reg.tail;
  rqes = add_size ring_ptr reg.rqes;
  rq_tail = 0;
  ring_entries = reg.rq_entries;
  ring_ptr = ring_ptr;
  zcrx_id = reg.zcrx_id;
  area_token = reg.rq_area_token;
}

pub ringed-IsRing :
    (page n : ℕ) (x : Registered) (base : ℕ) (p : OwnedZcrx)
    → n ≤ 2 ^ 30
    → x.rq_entries ≡ bit_ceil n
    → Aligned (bit_ceil n * 16 + page) page p.ring_size
    → IsRing page n (ringed x base p)
unfolding opened
ringed-IsRing page n x base p few same aligned =
    let (pow, enough) = bit_ceil-IsPow2 n (omega arith) in
    let below : bit_ceil n ≤ 2 ^ 31 = bit_ceil-le n (2 ^ 31) (omega arith) (omega arith) in
    let fits : 2 ^ pow.log ≤ 2 ^ 32 = omega (arith, pow.is_pow) in
    record {
      entries = same;
      room = omega (arith, same);
      pages = subst (λ (t : ℕ). Aligned (t * 16 + page) page p.ring_size) (sym same) aligned;
      empty = λ d rqes long. record {
        log = pow.log;
        cofactor = 2 ^ (32 - pow.log);
        is_pow = same ∙ pow.is_pow;
        splits =
            ap (λ (t : ℕ). t * 2 ^ (32 - pow.log)) (same ∙ pow.is_pow) ∙ pow_splits 32 pow.log fits;
        bounded = omega (arith, same);
        room = long;
        head_in = omega arith;
        tail_at = refl;
        fits = omega arith;
        holds = λ i less. absurd (omega arith);
      };
    }

module _ {R : Type 0} (h : ZcrxHost R) (maps : R → List (ℕ × ℕ)) (host : IsZcrxHost h maps) where
  unmap_region-maps :
      (b : Bool) (base size : ℕ) (r : R) (xs ys : List (ℕ × ℕ))
      → Below b base
      → maps r ≡ xs ++ with_map b (base, size) ys
      → (r1 : R) × (unmap_region h b base size r ≡ ok r1) × (maps r1 ≡ xs ++ ys)
  unfolding unmap_region
  unmap_region-maps true base size r xs ys below eq =
      let (e, m) = host.unmapped base size r xs ys below eq in ((h.munmap base size r).1, simp e, m)
  unmap_region-maps false base size r xs ys below eq = (r, refl, eq)

  pub cleanup_zcrx-maps :
      (p : OwnedZcrx) (ms : List (ℕ × ℕ)) (r : R)
      → Below (has_area p) p.area_ptr
      → Below (has_ring p) p.ring_ptr
      → maps r ≡ mappings p ms
      → (r1 : R) × (cleanup_zcrx h p r ≡ ok r1) × (maps r1 ≡ ms)
  unfolding cleanup_zcrx
  cleanup_zcrx-maps p ms r a b eq =
      let ring : ℕ × ℕ = (p.ring_ptr, p.ring_size) in
      let all : List (ℕ × ℕ) = with_map (has_area p) (p.area_ptr, p.area_size) ms in
      let (r1, e1, m1) =
        unmap_region-maps (has_area p) p.area_ptr p.area_size r (with_map (has_ring p) ring []) ms a
          (eq ∙ sym (with_map-append (has_ring p) ring all)) in
      let (r2, e2, m2) =
        unmap_region-maps (has_ring p) p.ring_ptr p.ring_size r1 [] ms b
          (m1 ∙ with_map-append (has_ring p) ring ms) in
      (r2, simp (e1, e2), m2)

  pub align_up-pages :
      (value : ℕ)
      → value + h.page_size ≤ 2 ^ 64
      → (size : ℕ) × (align_up value h.page_size ≡ ok size) × Aligned value h.page_size size
  align_up-pages value fits =
      let low : host.log ≤ 32 = pow_fits 32 host.log (omega (arith, host.page_is, host.small)) in
      subst (λ (t : ℕ). (size : ℕ) × (align_up value t ≡ ok size) × Aligned value t size)
        (sym host.page_is)
        (align_up-Aligned host.log value (omega arith) (omega (arith, host.page_is)))

  pub get_refill_ring_size-Aligned :
      (n : ℕ)
      → n ≤ 2 ^ 31
      → (size : ℕ) × (get_refill_ring_size h n ≡ ok size)
        × Aligned (n * 16 + h.page_size) h.page_size size
  unfolding get_refill_ring_size
  get_refill_ring_size-Aligned n few =
      let same : add_size (n * h.rqe_size % size_max) h.page_size ≡ n * 16 + h.page_size =
        omega (arith, ap (λ (t : ℕ). n * t) host.rqe_is, host.small) in
      let (size, e, a) = align_up-pages (n * 16 + h.page_size) (omega (arith, host.small)) in
      (size, ap (λ (t : ℕ). align_up t h.page_size) same ∙ e, a)
