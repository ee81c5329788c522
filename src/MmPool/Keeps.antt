-- ===== src/MmPool/Keeps.antt =====
-- What the operations of src/mmpool.c on nodes and lists leave as it is.
use syslib.Prelude.{
  ℕ, ◌%◌, ◌^◌, ◌≡◌, refl, ◌∙◌, Bool, true, false, Option, none, some, ◌==◌, if◌then◌else◌, Run,
  zoomed, and_then, upd,
}
use syslib.Misc.{log_2}
use syslib.Dlist.{Ptr, null, Links, Code, succeed, fail, lst_clr, lst_push_front, lst_remove}
use syslib.MmPool.{
  Impl, M, on_links, lifted, fln_of, set_node_block, set_fln_idx, return_free_fln, free_fln_list_of,
}
use syslib.MmPool.Merge.{unlink_block, removed_fln, get_flh}

pub same_run :
    {A B : Type 0} (o : Option (A × Impl)) (k k' : A → M B)
    → ((a : A) (t : Impl) → o ≡ some (a, t) → k a t ≡ k' a t)
    → and_then o k ≡ and_then o k'
same_run none k k' same = refl
same_run (some (a, t)) k k' same = same a t refl

-- If a run ends, `f` has the value `v`.
abbrev pub Kept : {A B : Type 0} → (Impl → B) → B → Option (A × Impl) → Type 0
Kept f v none = Unit {0}
Kept f v (some (a, s)) = f s ≡ v

pub kept_end :
    {A B : Type 0} (f : Impl → B) {v : B} (o : Option (A × Impl)) {a : A} {s : Impl}
    → Kept f v o
    → o ≡ some (a, s)
    → f s ≡ v
kept_end f o kept e = rw e at kept

module _ {B : Type 0} (f : Impl → B) (v : B) where
  pub kept_bind :
      {A C : Type 0} (o : Option (A × Impl)) (k : A → M C)
      → Kept f v o
      → ((a : A) (t : Impl) → f t ≡ v → Kept f v (k a t))
      → Kept f v (and_then o k)
  kept_bind none k kept rest = tt
  kept_bind (some (a, t)) k kept rest = rest a t kept

  pub kept_lifted : {A : Type 0} {s : Impl} (o : Option A) → f s ≡ v → Kept f v (lifted o s)
  kept_lifted none e = tt
  kept_lifted (some a) e = e

  pub kept_if :
      {A : Type 0} (b : Bool) (x y : Option (A × Impl))
      → Kept f v x
      → Kept f v y
      → Kept f v (if b then x else y)
  kept_if true x y kept kept' = kept
  kept_if false x y kept kept' = kept'

module _ {B : Type 0} (f : Impl → B)
    (links_apart : (s : Impl) (l : Links) → f (record s { links = l }) ≡ f s)
    (blocks_apart : (s : Impl) (g : Ptr → Ptr) → f (record s { node_block = g }) ≡ f s)
    (idx_apart : (s : Impl) (g : Ptr → ℕ) → f (record s { fln_idx = g }) ≡ f s) (v : B) where
  zoom :
      {A : Type 0} (s : Impl) (o : Option (A × Links))
      → f s ≡ v
      → Kept f v (zoomed o (λ l. record s { links = l }))
  zoom s none e = tt
  zoom s (some (a, l)) e = links_apart s l ∙ e

  pub kept_links : {A : Type 0} (s : Impl) (m : Run Links A) → f s ≡ v → Kept f v (on_links m s)
  kept_links s m e = zoom s (m s.links) e

  pub kept_node_block : (s : Impl) (fln p : Ptr) → f s ≡ v → Kept f v (set_node_block fln p s)
  unfolding set_node_block
  kept_node_block s fln p e =
      kept_if f v (fln == null) _ _ tt (blocks_apart s (upd s.node_block fln p) ∙ e)

  pub kept_fln_idx : (s : Impl) (bh : Ptr) (i : ℕ) → f s ≡ v → Kept f v (set_fln_idx bh i s)
  unfolding set_fln_idx
  kept_fln_idx s bh i e =
      kept_if f v (bh == null) _ _ tt (idx_apart s (upd s.fln_idx bh (i % 2 ^ 28)) ∙ e)

  pub kept_return : (s : Impl) (mmpi fln : Ptr) → f s ≡ v → Kept f v (return_free_fln mmpi fln s)
  unfolding return_free_fln
  kept_return s mmpi fln e =
      kept_bind f v (set_node_block fln null s) _ (kept_node_block s fln null e) λ _ t e1.
        kept_bind f v (on_links (lst_clr fln) t) _ (kept_links t (lst_clr fln) e1)
          λ _ u e2. kept_links u (lst_push_front (free_fln_list_of mmpi) fln) e2

  kept_removed :
      (s : Impl) (mmpi bh fln : Ptr) (code : Code)
      → f s ≡ v
      → Kept f v (removed_fln mmpi bh fln code s)
  kept_removed s mmpi bh fln fail e = e
  kept_removed s mmpi bh fln succeed e =
      kept_bind f v (set_fln_idx bh 0 s) _ (kept_fln_idx s bh 0 e)
        λ _ t e1. kept_return t mmpi fln e1

  kept_flh : (s : Impl) (bh : Ptr) → f s ≡ v → Kept f v (get_flh bh s)
  unfolding get_flh
  kept_flh s bh e =
      kept_bind f v (lifted (log_2 (s.block_size bh)) s) _
        (kept_lifted f v (log_2 (s.block_size bh)) e) λ _ _ e1. e1

  pub kept_unlink : (s : Impl) (mmpi bh : Ptr) → f s ≡ v → Kept f v (unlink_block mmpi bh s)
  unfolding unlink_block
  kept_unlink s mmpi bh e =
      let fln = fln_of s (s.fln_idx bh) in
      kept_bind f v (get_flh bh s) _ (kept_flh s bh e) λ flh t e1.
        kept_bind f v (on_links (lst_remove flh fln) t) _ (kept_links t (lst_remove flh fln) e1)
          λ code u e2. kept_removed u mmpi bh fln code e2

-- A run ends in a value and a state with `P`, if it ends.
abbrev pub Post : {A : Type 0} → (A → Impl → Type 0) → Option (A × Impl) → Type 0
Post P none = Unit {0}
Post P (some (a, s)) = P a s

pub ends_bind :
    {A C : Type 0} (P : A → Impl → Type 0) (Q : C → Impl → Type 0) (o : Option (A × Impl))
    (k : A → M C)
    → Post P o
    → ((a : A) (t : Impl) → P a t → Post Q (k a t))
    → Post Q (and_then o k)
ends_bind P Q none k p rest = tt
ends_bind P Q (some (a, t)) k p rest = rest a t p

pub ends_lifted : {A : Type 0} (o : Option A) (s : Impl) → Post (λ _ _. Unit {0}) (lifted o s)
ends_lifted none s = tt
ends_lifted (some a) s = tt

pub ends_if :
    {A : Type 0} (P : A → Impl → Type 0) (b : Bool) (m m' : M A) (s : Impl)
    → Post P (m s)
    → Post P (m' s)
    → Post P ((if b then m else m') s)
ends_if P true m m' s p p' = p
ends_if P false m m' s p p' = p'

pub ended :
    {A : Type 0} (P : A → Impl → Type 0) (o : Option (A × Impl)) {a : A} {s : Impl}
    → Post P o
    → o ≡ some (a, s)
    → P a s
ended P o p e = rw e at p

pub post_map :
    {A : Type 0} (P Q : A → Impl → Type 0) (o : Option (A × Impl))
    → Post P o
    → ((a : A) (t : Impl) → P a t → Q a t)
    → Post Q o
post_map P Q none p q = tt
post_map P Q (some (a, t)) p q = q a t p

pub any : {A : Type 0} (o : Option (A × Impl)) → Post (λ _ _. Unit {0}) o
any none = tt
any (some (a, s)) = tt
