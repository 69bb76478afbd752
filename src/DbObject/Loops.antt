-- ===== src/DbObject/Loops.antt =====
-- The loops of `DbObject::Shutdown` keep what one round keeps.
use erlang_rocksdb.Prelude.{ℕ, zero, suc, ◌≡◌, refl, List, [], ◌∷◌, length}
use erlang_rocksdb.DbObject.{
  Kind, Db, iterator, column_family, snapshot, tlog_iterator, transaction, update_list, close_child,
  close_list, close_all, close_children,
}

-- The front of a list has been taken.
abbrev pub popped : Kind → List ℕ → Db → Db
popped k rest db = record db { lists = update_list k (λ l. rest) db.lists }

module _ (P : Db → Type 0) where
  -- A property that a round of the loop over one list keeps.
  abbrev pub Kept : Kind → Type 0
  Kept k =
      (i : ℕ) (rest : List ℕ) (db : Db)
      → db.lists k ≡ i ∷ rest
      → P db
      → P (close_child i (popped k rest db))

  pub close_list_keeps :
      (k : Kind) → Kept k → (fuel : ℕ) (db : Db) → P db → P (close_list fuel k db)
  unfolding close_list
  close_list_keeps k round zero db h = h
  close_list_keeps k round (suc fuel) db h =
      by_list (close_list_keeps k round fuel) (db.lists k) refl
    where
      by_list :
          ((d : Db) → P d → P (close_list fuel k d))
          → (l : List ℕ) → db.lists k ≡ l
          → P (elim l [ [] ↦ db | i ∷ rest ↦ close_list fuel k (close_child i (popped k rest db)) ])
      by_list again [] e = h
      by_list again (i ∷ rest) e = again _ (round i rest db e h)

  pub close_children_keeps : ((k : Kind) → Kept k) → (db : Db) → P db → P (close_children db)
  unfolding close_children close_all
  close_children_keeps round db h =
      all transaction _
        (all tlog_iterator _ (all snapshot _ (all column_family _ (all iterator _ h))))
    where
      all : (k : Kind) (d : Db) → P d → P (close_list (length (d.lists k)) k d)
      all k d p = close_list_keeps k (round k) (length (d.lists k)) d p
