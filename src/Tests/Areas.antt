-- ===== src/Tests/Areas.antt =====
-- A kernel that lets a process map two regions, and registers every queue.
use condy.Prelude.{
  ℕ, ◌^◌, ◌≡◌, ◌<◌, refl, inl, inr, ◌⊎◌, false, Option, none, some, List, [], ◌∷◌, ◌++◌, ◌==◌,
  if◌then◌else◌, arith,
}
use condy.Zcrx.Create.{ZeroCopyRxArea, ZeroCopyRxDmaBufArea, ZcrxHost, map_failed}
use condy.Zcrx.Create.Mappings.{IsZcrxHost}
use condy.Zcrx.Create.Settle.{construct, Ends, construct-Ends}

-- The sizes of the two regions that are mapped.
abbrev Regions : Type 0
Regions = Option ℕ × Option ℕ

abbrev low_region : ℕ
low_region = 4096

abbrev high_region : ℕ
high_region = 2 ^ 40

abbrev regions : Regions → List (ℕ × ℕ)
regions (none, none) = []
regions (some s, none) = (low_region, s) ∷ []
regions (none, some t) = (high_region, t) ∷ []
regions (some s, some t) = (high_region, t) ∷ (low_region, s) ∷ []

abbrev map_region : ℕ → Regions → (ℕ ⊎ ℕ) × Regions
map_region size (none, none) = (inr low_region, (some size, none))
map_region size (some s, none) = (inr high_region, (some s, some size))
map_region size (a, some t) = (inl 12, (a, some t))

abbrev unmap_one : ℕ → Regions → ℕ × Regions
unmap_one base (a, b) =
    if base == low_region
    then (0, (none, b))
    else if base == high_region
    then (0, (a, none))
    else (22, (a, b))

abbrev kernel : ZcrxHost Regions
kernel = record {
  page_size = 4096;
  rqe_size = 16;
  io_uring_register_ifq = λ reg r. (
    inr (record {
      rq_entries = reg.rq_entries;
      head = 0;
      tail = 64;
      rqes = 4096;
      zcrx_id = 1;
      rq_area_token = 0;
      mmap_offset = 0;
    }),
    r,
  );
  mmap = λ file size r. map_region size r;
  munmap = λ base size r. unmap_one base r;
}

map_region-regions :
    (size : ℕ) (r : Regions)
    → let (m, r1) = map_region size r in
      ((base : ℕ) × (m ≡ inr base)
        × (0 < base)
        × (base < map_failed)
        × (regions r1 ≡ (base, size) ∷ regions r))
      ⊎ ((e : ℕ) × (m ≡ inl e) × (regions r1 ≡ regions r))
map_region-regions size (none, none) = inl (low_region, refl, omega arith, omega arith, refl)
map_region-regions size (some s, none) = inl (high_region, refl, omega arith, omega arith, refl)
map_region-regions size (none, some t) = inr (12, refl, refl)
map_region-regions size (some s, some t) = inr (12, refl, refl)

unmap_one-regions :
    (base size : ℕ) (r : Regions) (xs ys : List (ℕ × ℕ))
    → regions r ≡ xs ++ (base, size) ∷ ys
    → let (e, r1) = unmap_one base r in (e ≡ 0) × (regions r1 ≡ xs ++ ys)
unmap_one-regions base size (none, none) [] ys eq = grind arith
unmap_one-regions base size (none, none) (x ∷ xs) ys eq = grind arith
unmap_one-regions base size (some s, none) [] ys eq = grind arith
unmap_one-regions base size (some s, none) (x ∷ []) ys eq = grind arith
unmap_one-regions base size (some s, none) (x ∷ y ∷ xs) ys eq = grind arith
unmap_one-regions base size (none, some t) [] ys eq = grind arith
unmap_one-regions base size (none, some t) (x ∷ []) ys eq = grind arith
unmap_one-regions base size (none, some t) (x ∷ y ∷ xs) ys eq = grind arith
unmap_one-regions base size (some s, some t) [] ys eq = grind arith
unmap_one-regions base size (some s, some t) (x ∷ []) ys eq = grind arith
unmap_one-regions base size (some s, some t) (x ∷ y ∷ []) ys eq = grind arith
unmap_one-regions base size (some s, some t) (x ∷ y ∷ z ∷ xs) ys eq = grind arith

kernel-IsZcrxHost : IsZcrxHost kernel regions
kernel-IsZcrxHost = record {
  log = 12;
  page_is = refl;
  small = omega arith;
  rqe_is = refl;
  registered = λ reg r. (refl, inl (_, refl, refl));
  mapped = λ file size r. map_region-regions size r;
  unmapped = λ base size r xs ys below eq. unmap_one-regions base size r xs ys eq;
  refused = λ size r. refl;
}

abbrev small_area : ZeroCopyRxArea ⊎ ZeroCopyRxDmaBufArea
small_area = inl (record { addr = 0; size = 10000 })

construct-Ends_example :
    Ends kernel regions kernel-IsZcrxHost 100 [] small_area
      (none, none)
      (construct kernel regions kernel-IsZcrxHost 2 0 100 small_area false (none, none))
construct-Ends_example =
    construct-Ends kernel regions kernel-IsZcrxHost 2 0 100 small_area false [] (none, none)
      (omega arith) (omega arith, omega arith) refl
