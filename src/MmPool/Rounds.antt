-- ===== src/MmPool/Rounds.antt =====
-- How far the loop of `mmp_free` of src/mmpool.c runs, and what it comes to.
use syslib.Prelude.{
  ℕ, zero, suc, ◌*◌, ◌%◌, ◌^◌, ◌≤◌, ◌≡◌, ◌≢◌, refl, sym, ap, ◌∙◌, Bool, true, false, not, Option,
  none, some, arith, ◌==◌, leb, if◌then◌else◌, and_then, Bool-cases, ◌⊎◌, inl, inr, eq→==, ne→==,
  pure,
}
use native.Mathlib.Nat.{pow-suc}
use syslib.Misc.{is_2power}
use syslib.Dlist.{Ptr, null, Code, succeed, fail}
use syslib.MmPool.{Impl, M, lifted, prev_block, next_block, fill_block, make_block}
use syslib.MmPool.Merge.{
  are_buddies, unlink_block, merge_unlinked, merge_buddies, merge_buddy_next, merge_buddy_prev,
  or_prev, merge_round, merge_up,
}
use syslib.MmPool.Blocks.{upd_at}
use syslib.MmPool.Keeps.{Post, ends_bind, post_map, Kept, kept_lifted, kept_unlink}

abbrev sizes : Impl → Ptr → ℕ
sizes s = s.block_size

-- What a merge to the block `bh` leaves: nothing merged and the sizes as they were, or the block with
-- twice the size and the other sizes as they were.
abbrev Doubled : Ptr → (Ptr → ℕ) → (size : ℕ) → Option (Ptr × Impl) → Type 0
Doubled bh old size none = Unit {0}
Doubled bh old size (some (r, s)) =
    ((r ≡ null) × (s.block_size ≡ old))
    ⊎ ((r ≡ bh)
        × (s.block_size bh ≡ size * 2 % 2 ^ 32)
        × ((q : Ptr) → q ≢ bh → s.block_size q ≡ old q))

-- A round for the block `bh` returns null and leaves its size, or a block of twice the size.
abbrev Grown : Ptr → (size : ℕ) → Ptr → Impl → Type 0
Grown bh size r s =
    ((r ≡ null) × (s.block_size bh ≡ size)) ⊎ ((r ≢ null) × (s.block_size r ≡ size * 2 % 2 ^ 32))

is_null? : (r : Ptr) → (r ≡ null) ⊎ (r ≢ null)
is_null? r = omega arith

grown :
    (bh p : Ptr) (old : Ptr → ℕ) (size : ℕ) (o : Option (Ptr × Impl))
    → bh ≢ null
    → old bh ≡ size
    → Doubled p old size o
    → Post (Grown bh size) o
grown bh p old size none ne e d = tt
grown bh p old size (some (r, s)) ne e (inl (is_null, same)) =
    inl (is_null, ap (λ g. g bh) same ∙ e)
grown bh p old size (some (r, s)) ne e (inr (is_p, twice, rest)) = elim (is_null? r) [
  | inl is_null ↦ inl (is_null, rest bh (λ e'. ne (e' ∙ sym is_p ∙ is_null)) ∙ e)
  | inr not_null ↦ inr (not_null, rw is_p twice)
]

module _ (bh : Ptr) (old : Ptr → ℕ) (size : ℕ) where
  after_bind :
      {A : Type 0} (o : Option (A × Impl)) (k : A → M Ptr)
      → Kept sizes old o
      → ((a : A) (t : Impl) → t.block_size ≡ old → Doubled bh old size (k a t))
      → Doubled bh old size (and_then o k)
  after_bind none k kept rest = tt
  after_bind (some (a, t)) k kept rest = rest a t kept

  made :
      (ok : Bool) (t : Impl)
      → t.block_size ≡ old
      → Doubled bh old size ((if not ok then pure null else fill_block bh (size * 2 % 2 ^ 32) 0) t)
  unfolding fill_block
  made true t e = inr (
    refl,
    upd_at t.block_size bh bh (size * 2 % 2 ^ 32) refl,
    λ q ne. rw (ne→== q bh ne) (ap (λ g. g q) e),
  )
  made false t e = inl (refl, e)

  joined :
      (code : Code) (t : Impl)
      → t.block_size ≡ old
      → Doubled bh old size (merge_unlinked bh (size * 2 % 2 ^ 32) code t)
  unfolding make_block
  joined fail t e = inl (refl, e)
  joined succeed t e =
      after_bind (lifted (is_2power (size * 2 % 2 ^ 32)) t) _
        (kept_lifted sizes old (is_2power (size * 2 % 2 ^ 32)) e) λ ok u e1. made ok u e1

  merged :
      (out mmpi nbh : Ptr) (s : Impl)
      → s.block_size ≡ old
      → (are_buddies s bh nbh ≡ true → s.block_size bh ≡ size)
      → Doubled bh old size (merge_buddies out mmpi bh nbh s)
  unfolding merge_buddies
  merged out mmpi nbh s e same = elim (Bool-cases (are_buddies s bh nbh)) [
    | inl holds ↦
        rw (holds, same holds)
          (after_bind (unlink_block mmpi out s) _
            (kept_unlink sizes (λ _ _. refl) (λ _ _. refl) (λ _ _. refl) old s mmpi out e)
            λ code t e1. joined code t e1)
    | inr fails ↦ rw fails (inl (refl, e))
  ]

same_size :
    (s : Impl) (bh nbh : Ptr) → are_buddies s bh nbh ≡ true → s.block_size bh ≡ s.block_size nbh
unfolding are_buddies
same_size s bh nbh h = ground arith

then_prev :
    (mmpi bh : Ptr) (old : Ptr → ℕ) (found : Ptr) (t : Impl)
    → bh ≢ null
    → Doubled bh old (old bh) (some (found, t))
    → Post (Grown bh (old bh)) (or_prev mmpi bh found t)
unfolding merge_buddy_prev
then_prev mmpi bh old found t ne (inl (is_null, e)) = rw (eq→== found null is_null) (
    grown bh (prev_block t bh) old (old bh)
      (merge_buddies (prev_block t bh) mmpi (prev_block t bh) bh t) ne refl
      (merged (prev_block t bh) old (old bh) (prev_block t bh) mmpi bh t e
        λ holds. same_size t (prev_block t bh) bh holds ∙ ap (λ g. g bh) e))
then_prev mmpi bh old found t ne (inr (is_bh, twice, rest)) =
    let ne' : found ≢ null = λ e. ne (sym is_bh ∙ e) in
    rw (ne→== found null ne') (inr (ne', rw is_bh twice))

bind_grown :
    (bh : Ptr) (old : Ptr → ℕ) (size : ℕ) (Q : Ptr → Impl → Type 0) (o : Option (Ptr × Impl))
    (k : Ptr → M Ptr)
    → Doubled bh old size o
    → ((r : Ptr) (t : Impl) → Doubled bh old size (some (r, t)) → Post Q (k r t))
    → Post Q (and_then o k)
bind_grown bh old size Q none k d rest = tt
bind_grown bh old size Q (some (r, t)) k d rest = rest r t d

round :
    (mmpi bh : Ptr) (s : Impl)
    → bh ≢ null
    → Post (Grown bh (s.block_size bh)) (merge_round mmpi bh s)
unfolding merge_buddy_next
round mmpi bh s ne =
    bind_grown bh s.block_size (s.block_size bh) (Grown bh (s.block_size bh))
      (merge_buddies (next_block s bh) mmpi bh (next_block s bh) s) _
      (merged bh s.block_size (s.block_size bh) (next_block s bh) mmpi (next_block s bh) s refl
        (λ _. refl))
      λ found t d. then_prev mmpi bh s.block_size found t ne d

-- The loop has ended with a block that at most `f` rounds have doubled from `size`.
abbrev pub Merged : (f size : ℕ) → Option Ptr → Impl → Type 0
Merged f size r s = (b : Ptr) × (r ≡ some b) × ((k : ℕ) × (k ≤ f) × (s.block_size b ≡ 2 ^ k * size))

-- For a largest size up to 2^30, and a block that is not null and of which 2^f times the size reaches
-- the largest size, `f` + 1 rounds of fuel are enough for the loop of `mmp_free`: unless it stops at a
-- fault, it ends with a block whose size is that of the block, doubled at most `f` times.
pub merge_up-Merged :
    (f : ℕ) (mmpi bh : Ptr) (max : ℕ) (s : Impl)
    → bh ≢ null
    → max ≤ 2 ^ 30
    → max ≤ 2 ^ f * s.block_size bh
    → Post (Merged f (s.block_size bh)) (merge_up (suc f) mmpi max bh s)
unfolding merge_up
merge_up-Merged zero mmpi bh max s ne small reach =
    let done : leb max (s.block_size bh) ≡ true = ground arith in
    rw done (bh, refl, (0, omega arith, omega arith))
merge_up-Merged (suc f) mmpi bh max s ne small reach =
    elim (Bool-cases (leb max (s.block_size bh))) [
      | inl done ↦ rw done (bh, refl, (0, omega arith, omega arith))
      | inr on ↦ rw on (
          ends_bind (Grown bh (s.block_size bh)) (Merged (suc f) (s.block_size bh))
            (merge_round mmpi bh s) _ (round mmpi bh s ne)
            λ r t g. next on (λ r t ne h. merge_up-Merged f mmpi r max t ne small h) r t g)
    ]
  where
    bigger : leb max (s.block_size bh) ≡ false → s.block_size bh * 2 % 2 ^ 32 ≡ 2 * s.block_size bh
    bigger on = ground arith

    reached : {b : ℕ} → b ≡ 2 * s.block_size bh → max ≤ 2 ^ f * b
    reached e = rw e (omega (arith, ap (λ x. x * s.block_size bh) (pow-suc 2 f)))

    once_more :
        (k : ℕ) {b c : ℕ}
        → b ≡ 2 * s.block_size bh
        → c ≡ 2 ^ k * b
        → c ≡ 2 ^ suc k * s.block_size bh
    once_more k e e' = e' ∙ rw e (omega (arith, ap (λ x. x * s.block_size bh) (pow-suc 2 k)))

    more :
        (size : ℕ)
        → size ≡ 2 * s.block_size bh
        → (r : Option Ptr) (t : Impl) → Merged f size r t
        → Merged (suc f) (s.block_size bh) r t
    more size e r t (b, is_b, (k, le, power)) = (b, is_b, (suc k, omega arith, once_more k e power))

    next :
        leb max (s.block_size bh) ≡ false
        → ((r : Ptr) (t : Impl)
            → r ≢ null
            → max ≤ 2 ^ f * t.block_size r
            → Post (Merged f (t.block_size r)) (merge_up (suc f) mmpi max r t))
        → (r : Ptr) (t : Impl) → Grown bh (s.block_size bh) r t
        → Post
            (Merged (suc f) (s.block_size bh))
            ((if r == null then pure (some bh) else merge_up (suc f) mmpi max r) t)
    next on ih r t (inl (is_null, same)) =
        rw (eq→== r null is_null) (bh, refl, (0, omega arith, omega (arith, same)))
    next on ih r t (inr (not_null, twice)) = rw (ne→== r null not_null) (
        post_map (Merged f (t.block_size r)) (Merged (suc f) (s.block_size bh))
          (merge_up (suc f) mmpi max r t) (ih r t not_null (reached (twice ∙ bigger on)))
          (more (t.block_size r) (twice ∙ bigger on)))
