-- ===== src/KGroup/Heap.antt =====
-- Nodes of a singly linked list at addresses, and the commands that read and write them.
use good_command.Common.{
  ℕ, ◌≡◌, ◌≢◌, refl, false, Option, some, arith, ◌==◌, if◌then◌else◌, match_option, Exec, value,
  trap, no_fuel,
}
use good_command.Common.Int.{ℤ}

abbrev pub Ptr : Type 0
Ptr = ℕ

abbrev pub null : Ptr
null = 0

pub record ListNode : Type 0 where
  pub val : ℤ
  pub next : Ptr

abbrev pub node : ℤ → Ptr → ListNode
node v q = record { val = v; next = q }

abbrev pub Heap : Type 0
Heap = Ptr → Option ListNode

unfoldable pub write : Heap → Ptr → ListNode → Heap
write h p n a = if a == p then some n else h a

abbrev pub Cmd : Type 0 → Type 0
Cmd A = Heap → Exec (A × Heap)

abbrev pub pure : {A : Type 0} → A → Cmd A
pure a h = value (a, h)

abbrev pub after : {A B : Type 0} → Exec (A × Heap) → (A → Cmd B) → Exec (B × Heap)
after (value (a, h)) k = k a h
after trap k = trap
after no_fuel k = no_fuel

infixl 5 ◌>>=◌ ◌>>◌
abbrev pub ◌>>=◌ : {A B : Type 0} → Cmd A → (A → Cmd B) → Cmd B
m >>= k = λ h. after (m h) k

abbrev pub ◌>>◌ : {A B : Type 0} → Cmd A → Cmd B → Cmd B
m >> n = m >>= λ _. n

-- A read through NULL or through an address that holds no node traps.
unfoldable pub load : Ptr → Cmd ListNode
load p h = if p == null then trap else match_option (h p) trap (λ n. value (n, h))

-- The contents of a node that `malloc` occurs just returned.
abbrev pub store : Ptr → ListNode → Cmd (Unit {0})
store p n h = value (tt, write h p n)

-- `pre->next = q`
unfoldable pub set_next : (pre q : Ptr) → Cmd (Unit {0})
set_next pre q = do old ← load pre; store pre (record old { next = q })

-- `p` is the address of a node with value `v` and successor `q`.
pub record Holds (h : Heap) (p : Ptr) (v : ℤ) (q : Ptr) : Type 0 where
  pub holds : h p ≡ some (node v q)
  pub ne_null : p ≢ null

module _ {v : ℤ} {q p : Ptr} {h : Heap} (e : Holds h p v q) where
  pub not_null : (p == null) ≡ false
  not_null = ground (arith, e.ne_null)

  pub load-value : load p h ≡ value (node v q, h)
  unfolding load
  load-value = rw (not_null, e.holds) refl

  pub set_next-value : (r : Ptr) → set_next p r h ≡ value (tt, write h p (node v r))
  unfolding set_next
  set_next-value r = rw load-value refl

  pub Holds-write_self : (w : ℤ) (r : Ptr) → Holds (write h p (node w r)) p w r
  unfolding write
  Holds-write_self w r = record { ne_null = e.ne_null; holds = ground arith }

  pub Holds-write_other : (a : Ptr) (n : ListNode) → p ≢ a → Holds (write h a n) p v q
  unfolding write
  Holds-write_other a n ne = record { ne_null = e.ne_null; holds = ground (arith, e.holds) }

-- The run ends with a value, and `P` holds of it and of the heap.
abbrev pub Ends : {A : Type 0} → (A → Heap → Type 0) → Exec (A × Heap) → Type 0
Ends P (value (a, h)) = P a h
Ends P trap = ⊥
Ends P no_fuel = ⊥

pub Ends-after :
    {A B : Type 0} (P : A → Heap → Type 0) (Q : B → Heap → Type 0) (m : Exec (A × Heap))
    (k : A → Cmd B)
    → Ends P m
    → ((a : A) (h : Heap) → P a h → Ends Q (k a h))
    → Ends Q (after m k)
Ends-after P Q (value (a, h)) k p next = next a h p
Ends-after P Q trap k p next = p
Ends-after P Q no_fuel k p next = p

pub Ends-mono :
    {A : Type 0} (P Q : A → Heap → Type 0) (m : Exec (A × Heap))
    → Ends P m
    → ((a : A) (h : Heap) → P a h → Q a h)
    → Ends Q m
Ends-mono P Q (value (a, h)) p weaken = weaken a h p
Ends-mono P Q trap p weaken = p
Ends-mono P Q no_fuel p weaken = p

pub after_assoc :
    {A B C : Type 0} (m : Exec (A × Heap)) (k : A → Cmd B) (k' : B → Cmd C)
    → after (after m k) k' ≡ after m (λ a h. after (k a h) k')
after_assoc (value (a, h)) k k' = refl
after_assoc trap k k' = refl
after_assoc no_fuel k k' = refl

pub write_self : (h : Heap) (p : Ptr) (n : ListNode) → write h p n p ≡ some n
unfolding write
write_self h p n = ground arith

pub write_other : (h : Heap) (p b : Ptr) (n : ListNode) → b ≢ p → write h p n b ≡ h b
unfolding write
write_other h p b n ne = ground arith
