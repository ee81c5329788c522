-- ===== src/Dlist/Check.antt =====
-- What `lst_check` of src/dlist.c finds out.
use syslib.Prelude.{
  ℕ, zero, suc, ◌+◌, ◌-◌, ◌*◌, ◌≤◌, ◌<◌, ◌≡◌, ◌≢◌, ◌∙◌, refl, ap, sym, ne→==, eq→==, ==→ne, ◌⊎◌,
  Bool-cases, inl, inr, List, [], ◌∷◌, ◌++◌, arith, ◌==◌, length,
}
use mathlib.Core.Path.{subst}
use native.Mathlib.Nat.{add-zero}
use syslib.Dlist.{Ptr, null, Links, tail_of, at_end, met, walk, lst_check}
use syslib.Dlist.Chain.{◌∉◌, Chain, IsList, has-append, not_mem_last}

-- `n` steps lead from `p` to `stop`, which is met only then, and never to null.
abbrev pub Steps : (Ptr → Ptr) → Ptr → Ptr → ℕ → Type 0
Steps f stop p zero = p ≡ stop
Steps f stop p (suc n) = (p ≢ stop) × (p ≢ null) × Steps f stop (f p) n

Steps-unique :
    (f : Ptr → Ptr) (stop p : Ptr) (m n : ℕ) → Steps f stop p m → Steps f stop p n → m ≡ n
Steps-unique f stop p zero zero a b = refl
Steps-unique f stop p zero (suc n) a b = absurd (b.0 a)
Steps-unique f stop p (suc m) zero a b = absurd (a.0 b)
Steps-unique f stop p (suc m) (suc n) a b = ap suc (Steps-unique f stop (f p) m n a.2 b.2)

walk_at_end :
    (f : Ptr → Ptr) (stop : Ptr) (fuel : ℕ) (pf ps : Ptr) (m n : ℕ)
    → Steps f stop pf m
    → Steps f stop ps n
    → m ≤ n
    → n < fuel
    → walk f stop fuel pf ps ≡ at_end
unfolding walk
walk_at_end f stop zero pf ps m n a b le lt = absurd (omega arith)
walk_at_end f stop (suc fuel) pf ps zero n a b le lt = rw (eq→== pf stop a) refl
walk_at_end f stop (suc fuel) pf ps (suc zero) n a b le lt =
    rw (ne→== pf stop a.0, ne→== pf null a.1, eq→== (f pf) stop a.2) refl
walk_at_end f stop (suc fuel) pf ps (suc (suc m)) zero a b le lt = absurd (omega arith)
walk_at_end f stop (suc fuel) pf ps (suc (suc m)) (suc n) (h₁, h₂, (h₃, h₄, a)) (k₁, k₂, b) le lt =
    let apart : f (f pf) ≢ f ps =
      λ e. absurd (omega (arith, Steps-unique f stop (f ps) m n (rw e at a) b)) in
    rw
      (
        ne→== pf stop h₁,
        ne→== pf null h₂,
        ne→== (f pf) stop h₃,
        ne→== ps stop k₁,
        ne→== (f pf) null h₄,
        ne→== ps null k₂,
        ne→== (f (f pf)) (f ps) apart,
      )
      (walk_at_end f stop fuel (f (f pf)) (f ps) m n a b (omega arith) (omega arith))

forward :
    (s : Links) (a b : Ptr) (xs : List Ptr)
    → Chain s a xs b
    → b ∉ xs
    → null ∉ xs
    → Steps s.next b (s.next a) (length xs)
forward s a b [] c out nz = c.0
forward s a b (x ∷ xs) (e, f, c) out nz =
    rw e (ground arith, ground arith, forward s x b xs c (ground arith) (ground arith))

backward :
    (s : Links) (h a b : Ptr) (k : ℕ) (xs : List Ptr)
    → Steps s.prev h a k
    → Chain s a xs b
    → h ∉ (xs ++ (b ∷ []))
    → null ∉ (xs ++ (b ∷ []))
    → Steps s.prev h (s.prev b) (k + length xs)
backward s h a b k [] st c out nz = rw (c.1, add-zero) st
backward s h a b k (x ∷ xs) st (e, f, c) out nz =
    let step : Steps s.prev h x (suc k) = (ground arith, ground arith, rw f st) in
    let sum : suc k + length xs ≡ k + suc (length xs) = omega arith in
    subst (Steps s.prev h (s.prev b)) sum
      (backward s h x b (suc k) xs step c (ground arith) (ground arith))

-- On a well-formed list `lst_check` ends and returns 0, within as many rounds as there are nodes
-- and one.
pub lst_check_at_end :
    (s : Links) (lst : Ptr) (xs : List Ptr) (fuel : ℕ)
    → IsList s lst xs
    → length xs < fuel
    → lst_check fuel lst s ≡ at_end
unfolding lst_check
lst_check_at_end s lst xs fuel is lt =
    let t = tail_of lst in
    let hl : lst ≢ null = ground (arith, is.non_null) in
    let forth =
      forward s lst t xs is.chain (ground (arith, not_mem_last t (lst ∷ xs) is.distinct))
        (ground (arith, is.non_null, has-append null xs (t ∷ []))) in
    let back =
      backward s lst lst t 0 xs refl is.chain is.distinct.0 (ground (arith, is.non_null)) in
    rw
      (
        ne→== lst null hl,
        walk_at_end s.next t fuel (s.next lst) (s.next lst) _ _ forth forth (omega arith) lt,
      )
      (walk_at_end s.prev lst fuel (s.prev t) (s.prev t) _ _ back back (omega arith) (omega arith))

abbrev pub iter : ℕ → (Ptr → Ptr) → Ptr → Ptr
iter zero f x = x
iter (suc n) f x = f (iter n f x)

reindex : (f : Ptr → Ptr) (x : Ptr) (m n : ℕ) → m ≡ n → iter m f x ≡ iter n f x
reindex f x m n e = ap (λ k. iter k f x) e

iter_add : (f : Ptr → Ptr) (x : Ptr) (m n : ℕ) → iter (m + n) f x ≡ iter m f (iter n f x)
iter_add f x zero n = ap (λ k. iter k f x) (omega arith)
iter_add f x (suc m) n = ap (λ k. iter k f x) sum ∙ ap f (iter_add f x m n)
  where
    sum : suc m + n ≡ suc (m + n)
    sum = omega arith

-- From `a` on, `f` repeats itself after `c` steps, hence after `q * c`.
periodic :
    (f : Ptr → Ptr) (x : Ptr) (a c k q : ℕ)
    → iter (c + a) f x ≡ iter a f x
    → iter (q * c + (k + a)) f x ≡ iter (k + a) f x
periodic f x a c k zero e = ap (λ n. iter n f x) (omega arith)
periodic f x a c k (suc q) e =
    ap (λ n. iter n f x) regroup
    ∙ iter_add f x (q * c + k) (c + a)
    ∙ ap (iter (q * c + k) f) e
    ∙ sym (iter_add f x (q * c + k) a)
    ∙ ap (λ n. iter n f x) (omega arith)
    ∙ periodic f x a c k q e
  where
    regroup : suc q * c + (k + a) ≡ q * c + k + (c + a)
    regroup = omega arith

zero_or_pos : (k : ℕ) → (k ≡ 0) ⊎ (0 < k)
zero_or_pos k = omega arith

-- The pointers of the walk after `j` rounds, `k` rounds before they have to meet.
module _ (f : Ptr → Ptr) (stop x : Ptr)
    (inside : (n : ℕ) → (iter n f x ≢ stop) × (iter n f x ≢ null)) where
  walk_met :
      (k j fuel : ℕ)
      → iter (2 * (j + k)) f x ≡ iter (j + k) f x
      → 0 < k
      → k ≤ fuel
      → walk f stop fuel (iter (2 * j) f x) (iter j f x) ≡ met
  unfolding walk
  walk_met zero j fuel e lo hi = absurd (omega arith)
  walk_met (suc k) j zero e lo hi = absurd (omega arith)
  walk_met (suc k) j (suc fuel) e lo hi =
      let twice : 2 * suc j ≡ suc (suc (2 * j)) = omega arith in
      let fast = ap (λ n. iter n f x) twice in
      rw
        (
          ne→== _ stop (inside (2 * j)).0,
          ne→== _ null (inside (2 * j)).1,
          ne→== _ stop (inside (suc (2 * j))).0,
          ne→== _ stop (inside j).0,
          ne→== _ null (inside (suc (2 * j))).1,
          ne→== _ null (inside j).1,
        )
        (elim (Bool-cases (iter (suc (suc (2 * j))) f x == iter (suc j) f x)) [
          | inl meet ↦ rw meet refl
          | inr apart ↦ rw apart (elim (zero_or_pos k) [
            | inl none_left ↦ absurd (
                ==→ne _ _ apart (
                  reindex f x (suc (suc (2 * j))) (2 * (j + suc k)) (omega arith)
                  ∙ e
                  ∙ reindex f x (j + suc k) (suc j) (omega arith)))
            | inr more ↦ rw fast at (
                walk_met k (suc j) fuel
                  (reindex f x (2 * (suc j + k)) (2 * (j + suc k)) (omega arith)
                    ∙ e
                    ∙ reindex f x (j + suc k) (suc j + k) (omega arith))
                  more (omega arith))
          ])
        ])

-- Where the `next` pointers run into a loop, with `c` steps round and `a` steps before it,
-- `lst_check` ends and returns -1, within `c * (a + 1)` rounds.
pub lst_check_met :
    (s : Links) (lst : Ptr) (a c fuel : ℕ)
    → lst ≢ null
    → ((n : ℕ) → (iter n s.next (s.next lst) ≢ tail_of lst) × (iter n s.next (s.next lst) ≢ null))
    → iter (c + a) s.next (s.next lst) ≡ iter a s.next (s.next lst)
    → 0 < c
    → c * (a + 1) ≤ fuel
    → lst_check fuel lst s ≡ met
unfolding lst_check
lst_check_met s lst a c fuel hl inside loop pos enough =
    let m = c * (a + 1) in
    let large : a ≤ m = grind arith in
    let round : iter (2 * (0 + m)) s.next (s.next lst) ≡ iter (0 + m) s.next (s.next lst) =
      ap (λ n. iter n s.next (s.next lst)) (omega (arith))
      ∙ periodic s.next (s.next lst) a c (m - a) (a + 1) loop
      ∙ ap (λ n. iter n s.next (s.next lst)) (omega arith) in
    rw
      (
        ne→== lst null hl,
        walk_met s.next (tail_of lst) (s.next lst) inside m 0 fuel round (grind arith) enough,
      )
      refl
