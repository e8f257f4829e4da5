-- ===== src/Buffers/Line/Used.antt =====
-- include/condy/provided_buffers.hpp: the loop of `handle_finish` over the buffers of a bundle uses up the front of the line.
use condy.Prelude.{
  ℕ, zero, suc, ◌+◌, ◌-◌, ◌*◌, ◌%◌, ◌^◌, ◌≤◌, ◌<◌, ◌≡◌, ◌≢◌, refl, sym, ap, ◌∙◌, inl, inr, min,
  Bool, true, false, List, [], ◌∷◌, ◌==◌, ==_iff, Bool-cases, if◌then◌else◌, length, length-set,
  get_or, get_or-set_self, get_or-set_ne, set, bit_and, Outcome, ok, arith,
}
use mathlib.Core.Path.{subst}
use native.Mathlib.Nat.{mod-lt, mod-add-mod}
use condy.Prelude.Bits.{bit_and_mask}
use condy.Prelude.Slots.{Holds, mod_inj}
use condy.Prelude.Words.{mod_factor, splits_short}
use condy.Buffers.{Queue, count_loop}
use condy.Buffers.Line.{consume, total}

-- Behind the first buffer, the line goes on from the next slot.
Holds-tail :
    (buf : List ℕ) (c h l : ℕ) (ls : List ℕ) → Holds buf c h 0 (l ∷ ls) → Holds buf c (h + 1) 0 ls
Holds-tail buf c h l ls holds i less =
    ap (λ (t : ℕ). get_or buf (t % c) 0) (omega arith) ∙ holds (suc i) (omega arith)

-- A write to the first slot.
Holds-set :
    (buf : List ℕ) (c h l v : ℕ) (ls : List ℕ)
    → length buf ≡ c
    → length (l ∷ ls) ≤ c
    → Holds buf c h 0 (l ∷ ls)
    → Holds (set buf (h % c) v) c h 0 (v ∷ ls)
Holds-set buf c h l v ls long few holds zero less =
    ap (λ (t : ℕ). get_or (set buf (h % c) v) (t % c) 0) (omega arith)
    ∙ get_or-set_self buf (h % c) v 0 (omega (arith, mod-lt h {m = c} (omega arith)))
Holds-set buf c h l v ls long few holds (suc i) less =
    get_or-set_ne buf (h % c) ((h + suc i) % c) v 0 apart ∙ holds (suc i) less
  where
    apart : h % c ≢ (h + suc i) % c
    apart e =
        let same : 0 ≡ suc i =
          mod_inj c h 0 (suc i) (omega arith) (omega arith)
            (ap (λ (t : ℕ). t % c) (omega arith) ∙ e) in
        omega (arith, same)

-- The slots of a queue: their number is a power of two, of 16 bits, and the mask goes with it.
pub record IsMasked (q : Queue) : Type 0 where
  pub log : ℕ
  pub capacity_is : q.capacity ≡ 2 ^ log
  pub mask_is : q.mask ≡ q.capacity - 1
  pub short : q.capacity ≤ 2 ^ 15
  pub long : length q.buf_lens ≡ q.capacity

pub masked :
    (q : Queue) (idx h : ℕ)
    → IsMasked q
    → idx % q.capacity ≡ h % q.capacity
    → bit_and idx q.mask ≡ h % q.capacity
masked q idx h w e =
    ap (bit_and idx) (w.mask_is ∙ ap (λ (t : ℕ). t - 1) w.capacity_is)
    ∙ bit_and_mask w.log idx
    ∙ ap (λ (t : ℕ). idx % t) (sym w.capacity_is)
    ∙ e

-- The 16-bit counters go on with the line.
pub wrapped :
    (q : Queue) (idx h : ℕ)
    → IsMasked q
    → idx % q.capacity ≡ h % q.capacity
    → (idx + 1) % 2 ^ 16 % q.capacity ≡ (h + 1) % q.capacity
wrapped q idx h w e =
    mod_factor q.capacity (2 ^ (16 - w.log)) (2 ^ 16) (idx + 1) (
      ap (λ (t : ℕ). t * 2 ^ (16 - w.log)) w.capacity_is
      ∙ splits_short w.log (omega (arith, w.capacity_is, w.short)))
    ∙ sym (mod-add-mod idx q.capacity 1)
    ∙ ap (λ (t : ℕ). (t + 1) % q.capacity) e
    ∙ mod-add-mod h q.capacity 1

abbrev used : Queue → ℕ → ℕ → ℕ
used q bytes l = if q.incremental then min bytes l else l

count_loop-stops :
    (k idx bytes n : ℕ) (q : Queue) → bytes ≡ 0 → count_loop k idx bytes n q ≡ ok (n, q)
unfolding count_loop
count_loop-stops zero idx bytes n q e = simp ((==_iff bytes 0).1 e)
count_loop-stops (suc k) idx bytes n q e = simp ((==_iff bytes 0).1 e)

count_loop-suc :
    (k idx bytes n b l : ℕ) (q : Queue)
    → (bytes == 0) ≡ false
    → bit_and idx q.mask ≡ b
    → get_or q.buf_lens b 0 ≡ l
    → count_loop (suc k) idx bytes n q
      ≡ count_loop k
          ((idx + 1) % 2 ^ 16)
          (bytes - used q bytes l)
          (if l - used q bytes l == 0 then (n + 1) % 2 ^ 16 else n)
          (record q { buf_lens = set q.buf_lens b (l - used q bytes l) })
unfolding count_loop
count_loop-suc k idx bytes n b l q more slot len = simp (more, slot, len)

-- A buffer that is used up gave all that it had, and one that is not gave all that was asked for.
used_up :
    (inc : Bool) (bytes l : ℕ)
    → (l - (if inc then min bytes l else l) == 0) ≡ true
    → (if inc then min bytes l else l) ≡ l
used_up true bytes l e = ground arith
used_up false bytes l e = refl

used_in_part :
    (inc : Bool) (bytes l : ℕ)
    → (l - (if inc then min bytes l else l) == 0) ≡ false
    → bytes - (if inc then min bytes l else l) ≡ 0
used_in_part true bytes l e = ground arith
used_in_part false bytes l e = ground arith

abbrev pub UsesAs : ℕ → ℕ × List ℕ → ℕ → Queue → Outcome (ℕ × Queue) → Type 0
UsesAs h (gone, rest) n q m =
    (buf : List ℕ) × (m ≡ ok (n + gone, record q { buf_lens = buf }))
    × (length buf ≡ q.capacity)
    × Holds buf q.capacity (h + gone) 0 rest

-- The buffers that the loop uses up are those that the line gives, and the slots hold the rest.
abbrev pub Uses : ℕ → List ℕ → ℕ → ℕ → Queue → Outcome (ℕ × Queue) → Type 0
Uses h ls bytes n q m = UsesAs h (consume q.incremental bytes ls) n q m

-- With nothing asked for, the loop is over.
stops-UsesAs :
    (ls : List ℕ) (k idx bytes n h : ℕ) (q : Queue)
    → IsMasked q
    → Holds q.buf_lens q.capacity h 0 ls
    → bytes ≡ 0
    → UsesAs h (0, ls) n q (count_loop k idx bytes n q)
stops-UsesAs ls k idx bytes n h q w holds none_left = (
  q.buf_lens,
  count_loop-stops k idx bytes n q none_left ∙ ap (λ (t : ℕ). ok (t, q)) (omega arith),
  w.long,
  λ i less. ap (λ (t : ℕ). get_or q.buf_lens (t % q.capacity) 0) (omega arith) ∙ holds i less,
)

pub count_loop-Uses :
    (ls : List ℕ) (k idx bytes n h : ℕ) (q : Queue)
    → IsMasked q
    → length ls ≤ k
    → length ls ≤ q.capacity
    → n + length ls < 2 ^ 16
    → idx % q.capacity ≡ h % q.capacity
    → Holds q.buf_lens q.capacity h 0 ls
    → bytes ≤ total ls
    → Uses h ls bytes n q (count_loop k idx bytes n q)
count_loop-Uses [] k idx bytes n h q w fuel few short e holds fits =
    stops-UsesAs [] k idx bytes n h q w holds (omega arith)
count_loop-Uses (l ∷ ls) zero idx bytes n h q w fuel few short e holds fits = absurd (omega arith)
count_loop-Uses (l ∷ ls) (suc k) idx bytes n h q w fuel few short e holds fits =
    let u : ℕ = used q bytes l in
    let slot : ℕ = h % q.capacity in
    let q1 : Queue = record q { buf_lens = set q.buf_lens slot (l - u) } in
    let long1 : length q1.buf_lens ≡ q.capacity = length-set q.buf_lens slot (l - u) ∙ w.long in
    let w1 : IsMasked q1 = record {
      log = w.log;
      capacity_is = w.capacity_is;
      mask_is = w.mask_is;
      short = w.short;
      long = long1;
    } in
    let first : get_or q.buf_lens slot 0 ≡ l =
      ap (λ (t : ℕ). get_or q.buf_lens (t % q.capacity) 0) (omega arith) ∙ holds 0 (omega arith) in
    let written : Holds q1.buf_lens q.capacity h 0 ((l - u) ∷ ls) =
      Holds-set q.buf_lens q.capacity h l (l - u) ls w.long few holds in
    elim (Bool-cases (bytes == 0)) [
      | inl z ↦
          let as_said : consume q.incremental bytes (l ∷ ls) ≡ (0, l ∷ ls) = simp z in
          subst (λ (p : ℕ × List ℕ). UsesAs h p n q (count_loop (suc k) idx bytes n q))
            (sym as_said)
            (stops-UsesAs (l ∷ ls) (suc k) idx bytes n h q w holds ((==_iff bytes 0).0 z))
      | inr more ↦
          let one = count_loop-suc k idx bytes n slot l q more (masked q idx h w e) first in
          elim (Bool-cases (l - u == 0)) [
            | inl gone ↦
                let all : u ≡ l = used_up q.incremental bytes l gone in
                let (buf, eq, long2, holds2) =
                  count_loop-Uses ls k ((idx + 1) % 2 ^ 16) (bytes - u) (n + 1) (h + 1) q1 w1
                    (omega arith) (omega arith) (omega arith) (wrapped q idx h w e)
                    (Holds-tail q1.buf_lens q.capacity h (l - u) ls written) (omega (arith, all)) in
                let later : ℕ × List ℕ = consume q.incremental (bytes - u) ls in
                let as_said : consume q.incremental bytes (l ∷ ls) ≡ (1 + later.0, later.1) =
                  simp (more, gone) in
                subst (λ (p : ℕ × List ℕ). UsesAs h p n q (count_loop (suc k) idx bytes n q))
                  (sym as_said)
                  (
                    buf,
                    one
                        ∙ ap (λ (t : ℕ). count_loop k ((idx + 1) % 2 ^ 16) (bytes - u) t q1)
                            (ap (λ (b : Bool). if b then (n + 1) % 2 ^ 16 else n) gone
                              ∙ omega arith)
                        ∙ eq
                        ∙ ap (λ (t : ℕ). ok (t, record q { buf_lens = buf })) (omega arith),
                    long2,
                    λ i less.
                        ap (λ (t : ℕ). get_or buf (t % q.capacity) 0) (omega arith) ∙ holds2 i less,
                  )
            | inr left ↦
                let as_said : consume q.incremental bytes (l ∷ ls) ≡ (0, (l - u) ∷ ls) =
                  simp (more, left) in
                let (buf, eq, long2, holds2) =
                  stops-UsesAs ((l - u) ∷ ls) k ((idx + 1) % 2 ^ 16) (bytes - u) n h q1 w1 written
                    (used_in_part q.incremental bytes l left) in
                subst (λ (p : ℕ × List ℕ). UsesAs h p n q (count_loop (suc k) idx bytes n q))
                  (sym as_said)
                  (
                    buf,
                    one
                        ∙ ap (λ (t : ℕ). count_loop k ((idx + 1) % 2 ^ 16) (bytes - u) t q1)
                            (ap (λ (b : Bool). if b then (n + 1) % 2 ^ 16 else n) left)
                        ∙ eq,
                    long2,
                    holds2,
                  )
          ]
    ]
