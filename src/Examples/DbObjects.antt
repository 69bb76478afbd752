-- ===== src/Examples/DbObjects.antt =====
-- A database with children at concrete inputs.
use erlang_rocksdb.Prelude.{
  ℕ, ◌≡◌, refl, sym, ap, some_inj, true, false, some, [], ◌∷◌, get_elem?, arith, if◌then◌else◌,
  ◌&&◌, not, ◌≢◌, zero, suc,
}
use erlang_rocksdb.RefObject.Tally.{tally}
use erlang_rocksdb.DbObject.{
  iterator, column_family, snapshot, Counted, Child, released, db_closed, Db, inc, ref_dec,
  db_ref_dec, remove, forget, set_child, child_ref_dec, close_child, close_list, close_all,
  close_children, close_db, create, hold_db, release_db, hold_child, release_child,
  destroy_column_family,
}
use erlang_rocksdb.DbObject.Steps.{
  opened, creates, holds_db, releases_db, holds_child, closes_db, Reach, start, later,
}
use erlang_rocksdb.DbObject.Lifetime.{Reach-children_first}
use erlang_rocksdb.DbObject.Order.{gives_back}
use erlang_rocksdb.DbObject.Releases.{Reach-released_once, Reach-closed_last}
use erlang_rocksdb.DbObject.Closing.{IsIdle}
use erlang_rocksdb.DbObject.Closed.{close_db-all_requested, close_db_idle}

-- A call opens an iterator and a snapshot, and returns.
abbrev held : Db
held = record opened { refs = inc opened.refs; holders = 1 }

abbrev with_children : Db
with_children = release_db (create snapshot (create iterator held))

with_children-Reach : Reach with_children
unfolding hold_db create
with_children-Reach =
    later
      (later
        (later (later start (holds_db held refl (omega arith)))
          (creates iterator (omega arith) (omega arith)))
        (creates snapshot (omega arith) (omega arith)))
      (releases_db (omega arith))

still_open : with_children.refs.close_requested ≡ 0
unfolding create release_db db_ref_dec ref_dec
still_open = refl

abbrev fresh : Counted
fresh = record { ref_count = 1; close_requested = 0; handle = true }

abbrev ended_iterator : Child
ended_iterator = record {
  kind = iterator;
  refs = record { ref_count = 0; close_requested = 3; handle = false };
  holders = 0;
  destroyed = false;
}

abbrev used_snapshot : Child
used_snapshot = record { kind = snapshot; refs = inc fresh; holders = 1; destroyed = false }

abbrev waiting_snapshot : Child
waiting_snapshot = record {
  kind = snapshot;
  refs = record { ref_count = 1; close_requested = 1; handle = true };
  holders = 1;
  destroyed = false;
}

with_children-IsIdle : IsIdle with_children
unfolding create release_db db_ref_dec ref_dec
with_children-IsIdle = record { no_holder = refl; no_child_holder = idle }
  where
    idle : (i : ℕ) (c : Child) → get_elem? with_children.children i ≡ some c → c.holders ≡ 0
    idle zero c g = sym (ap Child.holders (some_inj g))
    idle (suc zero) c g = sym (ap Child.holders (some_inj g))
    idle (suc (suc i)) c g = cc

close_db_idle_example :
    ((close_db with_children).refs.handle ≡ false)
    × ((i : ℕ) (c : Child)
        → get_elem? (close_db with_children).children i ≡ some c
        → c.refs.handle ≡ false)
close_db_idle_example =
    close_db_idle with_children with_children-Reach still_open with_children-IsIdle

-- The children in the order of the loops, then the database.
closes_in_order : (close_db with_children).events ≡ db_closed ∷ released 1 ∷ released 0 ∷ []
unfolding create release_db db_ref_dec ref_dec remove forget child_ref_dec close_child close_list
    close_all close_children close_db
closes_in_order = refl

closed-Reach : Reach (close_db with_children)
closed-Reach = later with_children-Reach closes_db

the_iterator : get_elem? (close_db with_children).children 0 ≡ some ended_iterator
unfolding create release_db db_ref_dec ref_dec remove forget child_ref_dec close_child close_list
    close_all close_children close_db
the_iterator = refl

close_db-all_requested_example : ended_iterator.refs.close_requested ≢ 0
close_db-all_requested_example =
    close_db-all_requested with_children with_children-Reach still_open 0 ended_iterator
      the_iterator

Reach-released_once_example :
    tally (gives_back 0) (close_db with_children).events
    ≡ (if ended_iterator.refs.handle && not ended_iterator.destroyed then 0 else 1)
Reach-released_once_example = Reach-released_once 0 ended_iterator closed-Reach the_iterator

closed_at_0 : get_elem? (close_db with_children).events 0 ≡ some db_closed
closed_at_0 = ap (λ l. get_elem? l 0) closes_in_order

Reach-closed_last_example :
    ◌≡◌ {A = ℕ} 0 0
    × ((i : ℕ) (c : Child)
        → get_elem? (close_db with_children).children i ≡ some c
        → c.refs.handle ≡ false)
Reach-closed_last_example = Reach-closed_last 0 closed-Reach closed_at_0

-- A call still uses the snapshot when the database is closed: the database stays until it returns.
abbrev snapshot_used : Db
snapshot_used = close_db (set_child 1 used_snapshot with_children)

snapshot_used-Reach : Reach snapshot_used
unfolding create release_db db_ref_dec ref_dec hold_child
snapshot_used-Reach =
    later
      (later with_children-Reach (
        holds_child 1 (record used_snapshot { refs = fresh; holders = 0 })
          (set_child 1 used_snapshot with_children) refl (omega arith) refl))
      closes_db

closing_snapshot : get_elem? snapshot_used.children 1 ≡ some waiting_snapshot
unfolding create release_db db_ref_dec ref_dec remove forget child_ref_dec close_child close_list
    close_all close_children close_db
closing_snapshot = refl

Reach-children_first_example : snapshot_used.refs.handle ≡ true
Reach-children_first_example =
    Reach-children_first 1 waiting_snapshot snapshot_used-Reach closing_snapshot refl

-- Two calls hold a column family. One destroys it: the handle goes back while the other still runs,
-- and no second time when both have returned.
abbrev held_twice : Child
held_twice = record {
  kind = column_family;
  refs = record { ref_count = 3; close_requested = 0; handle = true };
  holders = 2;
  destroyed = false;
}

abbrev with_family : Db
with_family = record held {
  refs = record { ref_count = 3; close_requested = 0; handle = true };
  lists = λ k. [];
  children = held_twice ∷ [];
}

destroyed_at_once : (destroy_column_family 0 with_family).events ≡ released 0 ∷ []
unfolding destroy_column_family close_child child_ref_dec ref_dec
destroyed_at_once = refl

destroyed_once :
    (release_child 0 (release_child 0 (destroy_column_family 0 with_family))).events
    ≡ released 0 ∷ []
unfolding destroy_column_family close_child release_child child_ref_dec ref_dec forget db_ref_dec
    remove
destroyed_once = refl
