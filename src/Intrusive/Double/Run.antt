-- ===== src/Intrusive/Double/Run.antt =====
-- include/condy/detail/intrusive.hpp: the doubly linked list over any sequence of calls.
use condy.Prelude.{
  ◌≡◌, refl, sym, ◌∙◌, ◌≢◌, inl, inr, Bool, false, List, [], ◌∷◌, ◌++◌, ◌==◌, ==_iff, Bool-cases,
  has, has-append, erase, Outcome, ok, ◌>>=◌, arith,
}
use mathlib.Core.Path.{subst}
use condy.Intrusive.{Ptr, null}
use condy.Intrusive.Double.{DoubleLinkList, push_back, pop_front, remove}
use condy.Intrusive.Double.Segment.{IsList, IsUnlinked}
use condy.Intrusive.Double.Append.{push_back-append}
use condy.Intrusive.Double.Pop.{pop_front-nil, pop_front-cons}
use condy.Intrusive.Double.Remove.{remove-erase, remove-false}

pub data Call : Type 0 where
  pushes : Ptr → Call
  pops : Call
  removes : Ptr → Call

pub data Reply : Type 0 where
  pushed : Reply
  popped : Ptr → Reply
  removed : Bool → Reply

unfoldable pub call : Call → DoubleLinkList → Outcome (Reply × DoubleLinkList)
call (pushes e) l = do l1 ← push_back e l; ok (pushed, l1)
call pops l = do (e, l1) ← pop_front l; ok (popped e, l1)
call (removes e) l = do (b, l1) ← remove e l; ok (removed b, l1)

unfoldable pub run_calls : List Call → DoubleLinkList → Outcome (List Reply × DoubleLinkList)
unfolding call
run_calls [] l = ok ([], l)
run_calls (c ∷ cs) l = do (r, l1) ← call c l; (rs, l2) ← run_calls cs l1; ok (r ∷ rs, l2)

-- A list without entries, over links that are all null.
abbrev pub empty_list : DoubleLinkList
empty_list = record { next = λ _. null; prev = λ _. null; head = null; tail = null }

abbrev pub rest_of : List Ptr → List Ptr
rest_of [] = []
rest_of (x ∷ xs) = xs

abbrev pub first_of : List Ptr → Ptr
first_of [] = null
first_of (x ∷ xs) = x

-- A call on a sequence: what it leaves and replies, and when it is allowed.
abbrev pub after : Call → List Ptr → List Ptr
after (pushes e) xs = xs ++ e ∷ []
after pops xs = rest_of xs
after (removes e) xs = erase e xs

abbrev pub reply : Call → List Ptr → Reply
reply (pushes e) xs = pushed
reply pops xs = popped (first_of xs)
reply (removes e) xs = removed (has e xs)

abbrev pub Allowed : Call → List Ptr → Type 0
Allowed (pushes e) xs = (e ≢ null) × (has e xs ≡ false)
Allowed pops xs = Unit {0}
Allowed (removes e) xs = e ≢ null

abbrev pub all_after : List Call → List Ptr → List Ptr
all_after [] xs = xs
all_after (c ∷ cs) xs = all_after cs (after c xs)

abbrev pub replies : List Call → List Ptr → List Reply
replies [] xs = []
replies (c ∷ cs) xs = reply c xs ∷ replies cs (after c xs)

abbrev pub AllAllowed : List Call → List Ptr → Type 0
AllAllowed [] xs = Unit {0}
AllAllowed (c ∷ cs) xs = Allowed c xs × AllAllowed cs (after c xs)

-- The list has the entries `xs`, and no other entry is in any list.
abbrev pub Owns : DoubleLinkList → List Ptr → Type 0
Owns l xs = IsList l xs × ((a : Ptr) → has a xs ≡ false → IsUnlinked a l)

abbrev Calls : Call → DoubleLinkList → List Ptr → Type 0
Calls c l xs = (l' : DoubleLinkList) × (call c l ≡ ok (reply c xs, l')) × Owns l' (after c xs)

has-erase_other : (a e : Ptr) (xs : List Ptr) → (a == e) ≡ false → has a (erase e xs) ≡ has a xs
has-erase_other a e [] h = refl
has-erase_other a e (x ∷ xs) h = ground (arith, has-erase_other a e xs h)

erase-missing : (e : Ptr) (xs : List Ptr) → has e xs ≡ false → erase e xs ≡ xs
erase-missing e [] h = refl
erase-missing e (x ∷ xs) h = ground (arith, erase-missing e xs)

call-Owns :
    (c : Call) (l : DoubleLinkList) (xs : List Ptr) → Owns l xs → Allowed c xs → Calls c l xs
unfolding call
call-Owns (pushes e) l xs (s, out) (ne, new) =
    let (l', eq, s', same) = push_back-append e l xs s ne new (out e new) in
    (
      l',
      simp eq,
      (
        s',
        λ a h.
            let (n, p) = same a h in
            let (n0, p0) = out a (ground (arith, has-append a xs (e ∷ []))) in (n ∙ n0, p ∙ p0),
      ),
    )
call-Owns pops l [] (s, out) _ = (l, simp (pop_front-nil l s), (s, out))
call-Owns pops l (x ∷ xs) (s, out) _ =
    let (l', eq, s', gone, same) = pop_front-cons l x xs s in
    (
      l',
      simp eq,
      (
        s',
        λ a h. elim (Bool-cases (a == x)) [
          | inl e ↦ subst (λ (y : Ptr). IsUnlinked y l') (sym ((==_iff a x).0 e)) gone
          | inr e ↦
              let (n, p) = same a (ground arith) in
              let (n0, p0) = out a (ground arith) in (n ∙ n0, p ∙ p0)
        ],
      ),
    )
call-Owns (removes e) l xs (s, out) ne = elim (Bool-cases (has e xs)) [
  | inl in_list ↦
      let (l', eq, s', gone, same) = remove-erase e l xs s in_list in
      (
        l',
        simp (eq, in_list),
        (
          s',
          λ a h. elim (Bool-cases (a == e)) [
            | inl is ↦ subst (λ (y : Ptr). IsUnlinked y l') (sym ((==_iff a e).0 is)) gone
            | inr other ↦
                let missing = sym (has-erase_other a e xs other) ∙ h in
                let (n, p) = same a missing in let (n0, p0) = out a missing in (n ∙ n0, p ∙ p0)
          ],
        ),
      )
  | inr missing ↦ (
    l,
    simp (remove-false e l xs s ne missing (out e missing), missing),
    subst (Owns l) (sym (erase-missing e xs missing)) (s, out),
  )
]

calls-Owns :
    (cs : List Call) (l : DoubleLinkList) (xs : List Ptr)
    → Owns l xs
    → AllAllowed cs xs
    → (l' : DoubleLinkList) × (run_calls cs l ≡ ok (replies cs xs, l')) × Owns l' (all_after cs xs)
unfolding run_calls
calls-Owns [] l xs h _ = (l, refl, h)
calls-Owns (c ∷ cs) l xs h (may, later) =
    let (l1, e1, h1) = call-Owns c l xs h may in
    let (l2, e2, h2) = calls-Owns cs l1 (after c xs) h1 later in (l2, simp (e1, e2), h2)

-- Any sequence of calls on an empty list runs without a fault, when what is pushed is an entry that
-- is not in the list and no entry is null: the replies are those of a sequence, where `push_back`
-- puts an entry behind the others, `pop_front` takes the first or replies null, and `remove` takes an
-- entry out and says whether it was there; in the end the links of the list go through that
-- sequence, forward and back, and all other links are null.
pub run_calls-Owns :
    (cs : List Call)
    → AllAllowed cs []
    → (l' : DoubleLinkList) × (run_calls cs empty_list ≡ ok (replies cs [], l'))
      × Owns l' (all_after cs [])
run_calls-Owns cs allowed = calls-Owns cs empty_list [] ((refl, refl), λ a h. (refl, refl)) allowed
