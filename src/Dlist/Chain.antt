-- ===== src/Dlist/Chain.antt =====
-- What a list in the store stands for: the sequence of its nodes (src/dlist.c).
use syslib.Prelude.{
  upd, ◌≡◌, ◌≢◌, ◌∙◌, refl, Bool, true, false, ◌||◌, List, [], ◌∷◌, ◌++◌, arith, ◌==◌,
}
use syslib.Dlist.{Ptr, null, Links, tail_of}

abbrev pub has : Ptr → List Ptr → Bool
has a [] = false
has a (x ∷ xs) = (a == x) || has a xs

infix 40 ◌∈◌ ◌∉◌
abbrev pub ◌∈◌ : Ptr → List Ptr → Type 0
a ∈ xs = has a xs ≡ true

abbrev pub ◌∉◌ : Ptr → List Ptr → Type 0
a ∉ xs = has a xs ≡ false

abbrev pub Distinct : List Ptr → Type 0
Distinct [] = Unit
Distinct (x ∷ xs) = (x ∉ xs) × Distinct xs

-- From `a` the nodes `xs` lead to `b`, by `next` forwards and by `prev` backwards.
abbrev pub Chain : Links → Ptr → List Ptr → Ptr → Type 0
Chain s a [] b = (s.next a ≡ b) × (s.prev b ≡ a)
Chain s a (x ∷ xs) b = (s.next a ≡ x) × (s.prev x ≡ a) × Chain s x xs b

-- The nodes of a list, its two sentinels included.
abbrev pub nodes : Ptr → List Ptr → List Ptr
nodes lst xs = lst ∷ (xs ++ (tail_of lst ∷ []))

pub record IsList (s : Links) (lst : Ptr) (xs : List Ptr) : Type 0 where
  pub distinct : Distinct (nodes lst xs)
  pub non_null : null ∉ nodes lst xs
  pub chain : Chain s lst xs (tail_of lst)
  pub head_prev : s.prev lst ≡ null
  pub tail_next : s.next (tail_of lst) ≡ null

abbrev pub last_of : Ptr → List Ptr → Ptr
last_of a [] = a
last_of a (x ∷ xs) = last_of x xs

abbrev pub first_of : List Ptr → Ptr → Ptr
first_of [] b = b
first_of (y ∷ ys) b = y

pub has-append : (a : Ptr) (xs ys : List Ptr) → has a (xs ++ ys) ≡ (has a xs || has a ys)
has-append a [] ys = refl
has-append a (x ∷ xs) ys = ground (arith, has-append a xs ys)

pub last_of-mem : (a : Ptr) (xs : List Ptr) → last_of a xs ∈ (a ∷ xs)
last_of-mem a [] = ground arith
last_of-mem a (x ∷ xs) = ground (arith, last_of-mem x xs)

pub first_of-mem : (ys : List Ptr) (b : Ptr) → first_of ys b ∈ (ys ++ (b ∷ []))
first_of-mem [] b = ground arith
first_of-mem (y ∷ ys) b = ground arith

pub ne_of_mem : (a b : Ptr) (xs : List Ptr) → a ∈ xs → b ∉ xs → a ≢ b
ne_of_mem a b [] m n = cc
ne_of_mem a b (x ∷ xs) m n = ground (arith, ne_of_mem a b xs)

-- A chain survives any change that spares the fields it rests on.
pub frame :
    {s t : Links} (a b : Ptr) (xs : List Ptr)
    → Chain s a xs b
    → ((p : Ptr) → p ∈ (a ∷ xs) → t.next p ≡ s.next p)
    → ((p : Ptr) → p ∈ (xs ++ (b ∷ [])) → t.prev p ≡ s.prev p)
    → Chain t a xs b
frame a b [] c next prev = (ground (arith, next a), ground (arith, prev b))
frame a b (x ∷ xs) (e, f, c) next prev = (
  ground (arith, next a),
  ground (arith, prev x),
  frame x b xs c (λ p m. next p (ground arith)) (λ p m. prev p (ground arith)),
)

-- The two fields at the gap between `xs` and `ys`.
pub gap :
    (s : Links) (a b : Ptr) (xs ys : List Ptr)
    → Chain s a (xs ++ ys) b
    → (s.next (last_of a xs) ≡ first_of ys b) × (s.prev (first_of ys b) ≡ last_of a xs)
gap s a b [] [] c = c
gap s a b [] (y ∷ ys) (e, f, c) = (e, f)
gap s a b (x ∷ xs) ys (e, f, c) = gap s x b xs ys c

-- `n` is put between `p` and `q`.
abbrev pub spliced : Links → Ptr → Ptr → Ptr → Links
spliced s p n q = record { prev = upd (upd s.prev n p) q n; next = upd (upd s.next n q) p n }

pub Chain-spliced :
    (s : Links) (n a b : Ptr) (xs ys : List Ptr)
    → Chain s a (xs ++ ys) b
    → Distinct (a ∷ ((xs ++ ys) ++ (b ∷ [])))
    → n ∉ (a ∷ ((xs ++ ys) ++ (b ∷ [])))
    → Chain (spliced s (last_of a xs) n (first_of ys b)) a (xs ++ (n ∷ ys)) b
Chain-spliced s n a b [] [] c d out = ground arith
Chain-spliced s n a b [] (y ∷ ys) (e, f, c) d out = (
  ground arith,
  ground arith,
  (
    ground arith,
    ground arith,
    frame y b ys c
        (λ p m. ground (
          arith,
          has-append p (y ∷ ys) (b ∷ []),
          ne_of_mem p a (y ∷ (ys ++ (b ∷ []))),
          ne_of_mem p n (y ∷ (ys ++ (b ∷ []))),
        ))
        (λ p m. ground (arith, ne_of_mem p y (ys ++ (b ∷ [])), ne_of_mem p n (ys ++ (b ∷ [])))),
  ),
)
Chain-spliced s n a b (x ∷ xs) ys (e, f, c) d out = (
  ground (
    arith,
    last_of-mem x xs,
    ne_of_mem (last_of x xs) a (x ∷ xs),
    has-append a (xs ++ ys) (b ∷ []),
    has-append a xs ys,
  ),
  ground (
    arith,
    first_of-mem ys b,
    ne_of_mem (first_of ys b) x (ys ++ (b ∷ [])),
    has-append x (xs ++ ys) (b ∷ []),
    has-append x xs ys,
    has-append x ys (b ∷ []),
  ),
  Chain-spliced s n x b xs ys c d.1 (ground arith),
)

module _ (n : Ptr) (zs : List Ptr) where
  pub has-insert :
      (p : Ptr) (xs ys : List Ptr)
      → has p ((xs ++ (n ∷ ys)) ++ zs) ≡ ((p == n) || has p ((xs ++ ys) ++ zs))
  has-insert p [] ys = refl
  has-insert p (x ∷ xs) ys = ground (arith, has-insert p xs ys)

  pub Distinct-insert :
      (xs ys : List Ptr)
      → Distinct ((xs ++ ys) ++ zs)
      → n ∉ ((xs ++ ys) ++ zs)
      → Distinct ((xs ++ (n ∷ ys)) ++ zs)
  Distinct-insert [] ys d out = (out, d)
  Distinct-insert (x ∷ xs) ys d out =
      (ground (arith, has-insert x xs ys), Distinct-insert xs ys d.1 (ground arith))

  pub Distinct-delete :
      (xs ys : List Ptr)
      → Distinct ((xs ++ (n ∷ ys)) ++ zs)
      → Distinct ((xs ++ ys) ++ zs) × (n ∉ ((xs ++ ys) ++ zs))
  Distinct-delete [] ys d = (d.1, d.0)
  Distinct-delete (x ∷ xs) ys d =
      let (rest, out) = Distinct-delete xs ys d.1 in
      ((ground (arith, has-insert x xs ys), rest), ground (arith, has-insert x xs ys))

-- The two stores agree at every node that is not in `xs`.
abbrev pub SameOutside : List Ptr → Links → Links → Type 0
SameOutside xs s t = (p : Ptr) → p ∉ xs → (t.prev p ≡ s.prev p) × (t.next p ≡ s.next p)

-- A list none of whose nodes is touched is still there.
pub IsList-frame :
    {s t : Links} {lst : Ptr} (touched xs : List Ptr)
    → IsList s lst xs
    → SameOutside touched s t
    → ((p : Ptr) → p ∈ nodes lst xs → p ∉ touched)
    → IsList t lst xs
IsList-frame {lst} touched xs is same apart = record {
  distinct = is.distinct;
  non_null = is.non_null;
  chain =
      frame lst (tail_of lst) xs is.chain
        (λ p m. (same p (apart p (ground (arith, has-append p xs (tail_of lst ∷ []))))).1)
        (λ p m. (same p (apart p (ground arith))).0);
  head_prev = (same lst (apart lst (ground arith))).0 ∙ is.head_prev;
  tail_next =
      (same (tail_of lst)
        (apart (tail_of lst) (ground (arith, has-append (tail_of lst) xs (tail_of lst ∷ []))))).1
      ∙ is.tail_next;
}

pub not_mem_last : (t : Ptr) (us : List Ptr) → Distinct (us ++ (t ∷ [])) → t ∉ us
not_mem_last t [] d = refl
not_mem_last t (u ∷ us) d = ground (arith, not_mem_last t us d.1, has-append u us (t ∷ []))

-- The two nodes at a gap of a list.
module _ (lst : Ptr) (xs ys : List Ptr) (d : Distinct (nodes lst (xs ++ ys))) where
  abbrev tail : List Ptr
  tail = tail_of lst ∷ []

  pub last_of-nodes : last_of lst xs ∈ nodes lst (xs ++ ys)
  last_of-nodes = ground (
    arith,
    last_of-mem lst xs,
    has-append (last_of lst xs) (xs ++ ys) tail,
    has-append (last_of lst xs) xs ys,
  )

  pub first_of-rest : first_of ys (tail_of lst) ∈ ((xs ++ ys) ++ tail)
  first_of-rest =
      let q = first_of ys (tail_of lst) in
      ground (
        arith,
        first_of-mem ys (tail_of lst),
        has-append q (xs ++ ys) tail,
        has-append q xs ys,
        has-append q ys tail,
      )

  pub first_of-nodes : first_of ys (tail_of lst) ∈ nodes lst (xs ++ ys)
  first_of-nodes = ground (arith, first_of-rest)

  pub first_of-ne-head : first_of ys (tail_of lst) ≢ lst
  first_of-ne-head = ne_of_mem _ lst ((xs ++ ys) ++ tail) first_of-rest d.0

  pub last_of-ne-tail : last_of lst xs ≢ tail_of lst
  last_of-ne-tail = ne_of_mem _ (tail_of lst) (lst ∷ xs) (last_of-mem lst xs) (
      ground
        (arith, not_mem_last (tail_of lst) (lst ∷ (xs ++ ys)) d, has-append (tail_of lst) xs ys))

pub IsList-inner :
    {s : Links} (lst : Ptr) (xs : List Ptr)
    → IsList s lst xs
    → (lst ≢ null) × (lst ∉ xs) × (tail_of lst ∉ xs) × (null ∉ xs)
IsList-inner lst xs is = (
  ground (arith, is.non_null),
  ground (arith, is.distinct, has-append lst xs (tail_of lst ∷ [])),
  ground (arith, not_mem_last (tail_of lst) (lst ∷ xs) is.distinct),
  ground (arith, is.non_null, has-append null xs (tail_of lst ∷ [])),
)
