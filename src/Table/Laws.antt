-- ===== src/Table/Laws.antt =====
-- Reading and summing a table after an insertion or an update.
use dex_backend.Base.{ℕ, ◌+◌, ◌≡◌, refl, false, some, [], ◌∷◌, arith, if◌then◌else◌}
use dex_backend.Base.Key.{Key}
use dex_backend.Table.{Table, select, insert, update, sum}

module _ {K R : Type 0} ⦃k : Key K⦄ where
  pub select-update_self :
      (i : K) (g : R → R) (t : Table K R) (r : R)
      → select i t ≡ some r
      → select i (update i g t) ≡ some (g r)
  unfolding select update
  select-update_self i g [] r h = cc
  select-update_self i g ((j, q) ∷ t) r h = ground (arith, select-update_self i g t r)

  pub select-update_ne :
      (i j : K) (g : R → R) (t : Table K R)
      → k.same i j ≡ false
      → select j (update i g t) ≡ select j t
  unfolding select update
  select-update_ne i j g [] h = refl
  select-update_ne i j g ((l, r) ∷ t) h =
      ground (arith, select-update_ne i j g t, k.same_iff l i, k.same_iff l j, k.same_iff i j)

  pub sum-update :
      (f : K → R → ℕ) (i : K) (g : R → R) (t : Table K R) (r : R)
      → select i t ≡ some r
      → sum f (update i g t) + f i r ≡ sum f t + f i (g r)
  unfolding select update sum
  sum-update f i g [] r h = cc
  sum-update f i g ((j, q) ∷ t) r h = ground (arith, sum-update f i g t r, k.same_iff j i)

  pub select-insert :
      (i j : K) (r : R) (t : Table K R)
      → select j (insert i r t) ≡ (if k.same i j then some r else select j t)
  unfolding select insert
  select-insert i j r t = refl

  pub sum-insert :
      (f : K → R → ℕ) (i : K) (r : R) (t : Table K R) → sum f (insert i r t) ≡ f i r + sum f t
  unfolding insert sum
  sum-insert f i r t = refl
