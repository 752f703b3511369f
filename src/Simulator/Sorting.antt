-- ===== src/Simulator/Sorting.antt =====
-- src/north_standard/simulator.py: what the sort of the records leaves as it is.
use mathlib.Core.List.{Perm}
use mathlib.Core.List.Perm
use north_standard.Base.{Bool, true, false, List, [], ◌∷◌, filter, if◌then◌else◌}
use north_standard.Models.{EvidenceRecord}
use north_standard.Simulator.{insert_record, sort_records, comes_after}

module _ {ℓ} {A : Type ℓ} where
  cons_if :
      (b : Bool) (x : A) {xs ys : List A}
      → Perm xs ys
      → Perm (if b then x ∷ xs else xs) (if b then x ∷ ys else ys)
  cons_if true x h = Perm.cons x h
  cons_if false x h = h

  swap_if :
      (b c : Bool) (x y : A) (zs : List A)
      → Perm
          (if b then x ∷ (if c then y ∷ zs else zs) else (if c then y ∷ zs else zs))
          (if c then y ∷ (if b then x ∷ zs else zs) else (if b then x ∷ zs else zs))
  swap_if true true x y zs = Perm.swap y x zs
  swap_if true false x y zs = Perm.refl (x ∷ zs)
  swap_if false true x y zs = Perm.refl (y ∷ zs)
  swap_if false false x y zs = Perm.refl zs

module _ {F : Type 0} (p : EvidenceRecord F → Bool) where
  filter-insert_record :
      (r : EvidenceRecord F) (rs : List (EvidenceRecord F))
      → Perm (filter p (insert_record r rs)) (filter p (r ∷ rs))
  unfolding insert_record
  filter-insert_record r [] = Perm.refl _
  filter-insert_record r (s ∷ rs) = placed (comes_after r s) (
      Perm.trans (cons_if (p s) s (filter-insert_record r rs))
        (swap_if (p s) (p r) s r (filter p rs)))
    where
      placed :
          (b : Bool)
          → Perm (filter p (s ∷ insert_record r rs)) (filter p (r ∷ s ∷ rs))
          → Perm
              (filter p (if b then s ∷ insert_record r rs else r ∷ s ∷ rs))
              (filter p (r ∷ s ∷ rs))
      placed true h = h
      placed false h = Perm.refl _

  pub filter-sort_records :
      (rs : List (EvidenceRecord F)) → Perm (filter p (sort_records rs)) (filter p rs)
  unfolding sort_records
  filter-sort_records [] = Perm.refl []
  filter-sort_records (r ∷ rs) =
      Perm.trans (filter-insert_record r (sort_records rs))
        (cons_if (p r) r (filter-sort_records rs))
