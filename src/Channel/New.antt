-- ===== src/Channel/New.antt =====
-- A new channel against the bounded queue.
use condy.Prelude.{
  ℕ, zero, suc, ◌%◌, ◌^◌, ◌+◌, ◌≤◌, ◌≡◌, refl, sym, ap, ◌∙◌, ◌⊎◌, inl, inr, Bool, false, Option,
  none, List, [], ◌==◌, if◌then◌else◌, length, length-replicate, get_or, replicate, arith,
  Bool-cases,
}
use condy.Prelude.Words.{IsPow2, bit_ceil, bit_ceil-IsPow2}
use condy.Channel.{Channel, create, PushHandle, Event}
use condy.Channel.Buffer.{Ring}
use condy.Channel.Bounded.{Bounded}
use condy.Channel.Refine.{Rep}

module _ {A : Type 0} where
  get_or-replicate : (n i : ℕ) → get_or {A = Option A} (replicate n none) i none ≡ none
  get_or-replicate zero i = refl
  get_or-replicate (suc n) zero = refl
  get_or-replicate (suc n) (suc i) = get_or-replicate n i

  empty-Ring :
      (cap : ℕ) (c : Channel A)
      → IsPow2 cap ⊎ (cap ≡ 0)
      → c.capacity ≡ cap
      → c.buffer ≡ replicate cap none
      → c.head ≡ 0
      → c.tail ≡ 0
      → Ring c []
  empty-Ring cap c p e b h t = record {
    pow = rw e p;
    room = ap length b ∙ length-replicate cap none ∙ sym e;
    head_in = omega (arith, h);
    tail_at = omega (arith, h, t);
    fits = omega arith;
    image = λ j hj.
        ap (λ (l : List (Option A)). get_or l ((c.head + j) % c.capacity) none) b
        ∙ get_or-replicate cap _;
  }

  abbrev pub fresh : ℕ → Bounded A
  fresh cap = record { items = []; pushes = []; pops = []; bound = cap; shut = false; told = [] }

  fresh-Rep :
      (cap : ℕ) (c : Channel A)
      → IsPow2 cap ⊎ (cap ≡ 0)
      → c ≡ record {
        push_awaiters = [];
        pop_awaiters = [];
        head = 0;
        tail = 0;
        capacity = cap;
        buffer = replicate cap none;
        closed = false;
        scheduled = [];
      }
      → Rep c (fresh cap)
  fresh-Rep cap c p e = record {
    ring = empty-Ring cap c p (ap capacity e) (ap buffer e) (ap head e) (ap tail e);
    bound = ap capacity e;
    pushes = ap push_awaiters e;
    pops = ap pop_awaiters e;
    shut = ap closed e;
    told = ap scheduled e;
    valid = record {
      within = omega arith;
      full_if_push = inl refl;
      empty_if_pop = inl refl;
      none_if_shut = inl refl;
    };
  }
    where
      capacity : Channel A → ℕ
      capacity s = s.capacity

      head : Channel A → ℕ
      head s = s.head

      tail : Channel A → ℕ
      tail s = s.tail

      buffer : Channel A → List (Option A)
      buffer s = s.buffer

      push_awaiters : Channel A → List (PushHandle A)
      push_awaiters s = s.push_awaiters

      pop_awaiters : Channel A → List ℕ
      pop_awaiters s = s.pop_awaiters

      closed : Channel A → Bool
      closed s = s.closed

      scheduled : Channel A → List (Event A)
      scheduled s = s.scheduled

  -- A new channel is an empty open queue, with room for at least the capacity asked for, and with
  -- none at all if that is 0.
  pub create-Rep :
      (n : ℕ)
      → n ≤ 2 ^ 63
      → let cap = if n == 0 then 0 else bit_ceil n in
        Rep (create n) (fresh cap) × (n ≤ cap) × ((n ≡ 0) → cap ≡ 0)
  unfolding create
  create-Rep n h = elim (Bool-cases (n == 0)) [
    | inl e ↦ rw e (fresh-Rep 0 _ (inr refl) refl, ground arith, λ _. refl)
    | inr e ↦ rw e (
      fresh-Rep (bit_ceil n) _ (inl (bit_ceil-IsPow2 n h).0) refl,
      (bit_ceil-IsPow2 n h).1,
      ground arith,
    )
  ]
