-- ===== src/DbObject/Listed.antt =====
-- Until the database is asked to close, its lists hold every child that is open.
use erlang_rocksdb.Prelude.{
  ℕ, ◌-◌, ◌≡◌, ◌≢◌, refl, sym, ◌∙◌, ap, subst, Bool, true, false, ◌||◌, ◌==◌, some, List, [], ◌∷◌,
  ◌++◌, length, get_elem?, get_elem?-append, if◌then◌else◌, arith, same_or_not, inl, inr,
}
use erlang_rocksdb.DbObject.{
  Kind, same_kind, Child, Db, requested, db_ref_dec, set_child, child_ref_dec, close_child,
  close_children, close_db, create, release_db, kept_in_list,
}
use erlang_rocksdb.DbObject.Balance.{ref_dec_keeps_request}
use erlang_rocksdb.DbObject.Branches.{
  close_db-cases, hold_db-result, held_child, hold_child-result, release_child-result,
}
use erlang_rocksdb.DbObject.Steps.{
  Step, creates, holds_db, releases_db, holds_child, releases_child, destroys_column_family,
  closes_child, closes_db, Reach, start, later,
}
use erlang_rocksdb.DbObject.Destroyed.{taken_child, taken, destroy-result}
use erlang_rocksdb.DbObject.Loops.{popped, close_children_keeps}
use erlang_rocksdb.DbObject.Shutdown.{
  same_kind_refl, mem, IsOpen, Changed, child_ref_dec-Changed, opens_before, closed_at, mem_other,
}
use erlang_rocksdb.DbObject.Closing.{close_child-Closes, IsListed}

mem-append : (i j : ℕ) (l : List ℕ) → mem i (l ++ j ∷ []) ≡ (mem i l || i == j)
mem-append i j [] = ground arith
mem-append i j (x ∷ l) = ground (arith, mem-append i j l)

-- What is listed, with one child changed.
Changed-IsListed :
    (i : ℕ) (c old : Child) (db db' : Db)
    → get_elem? db.children i ≡ some old
    → (c.refs.close_requested ≡ 0 → IsOpen i c.kind db)
    → Changed i c db db'
    → IsListed db
    → IsListed db'
Changed-IsListed i c old db db' g was ch h = record { listed = after }
  where
    after : (j : ℕ) (k : Kind) → IsOpen j k db' → mem j (db'.lists k) ≡ true
    after j k o = elim (same_or_not j i) [
      | inl e ↦ elim ch.lists [
        | inl same ↦ ap (λ l. mem j (l k)) same ∙ h.listed j k (opens_before ch was j k o)
        | inr p ↦ absurd (closed_at ch old g p.0 j k o e)
      ]
      | inr d ↦ mem_other ch j k d ∙ h.listed j k (opens_before ch was j k o)
    ]

close_child-IsListed : (i : ℕ) (db : Db) → IsListed db → IsListed (close_child i db)
close_child-IsListed i db h =
    let cl = close_child-Closes i db in
    record { listed = λ j k o. cl.others j k (cl.opens j k o).1 ∙ h.listed j k (cl.opens j k o).0 }

pub close_children_requested :
    (db : Db) → db.refs.close_requested ≢ 0 → (close_children db).refs.close_requested ≢ 0
close_children_requested db h =
    close_children_keeps (λ d. d.refs.close_requested ≢ 0)
      (λ k i rest d e p q. p ((close_child-Closes i (popped k rest d)).request q)) db h

pub db_ref_dec_request :
    (db : Db) → (db_ref_dec db).refs.close_requested ≡ 0 → db.refs.close_requested ≡ 0
unfolding db_ref_dec
db_ref_dec_request db e = ref_dec_keeps_request db.refs e

pub same_children :
    (db db' : Db) → db'.children ≡ db.children → db'.lists ≡ db.lists → IsListed db → IsListed db'
same_children db db' p q h = record {
  listed = λ j k o.
      ap (λ l. mem j (l k)) q
      ∙ h.listed j k (record {
        child = o.child;
        there = sym (ap (λ l. get_elem? l j) p) ∙ o.there;
        of_kind = o.of_kind;
        unrequested = o.unrequested;
      });
}

kept_while_open : (k : Kind) (r : ℕ) → r ≡ 0 → kept_in_list k r ≡ true
kept_while_open k r e = ground arith

create-IsListed :
    (k : Kind) (db : Db) → db.refs.close_requested ≡ 0 → IsListed db → IsListed (create k db)
unfolding create
create-IsListed k db e h = record { listed = λ j k' o. rw (kept_while_open k _ e) (after j k' o) }
  where
    n : ℕ
    n = length db.children

    still :
        (j : ℕ) (k' : Kind) (b : Bool)
        → mem j (db.lists k') ≡ true
        → mem j (if b then db.lists k' ++ n ∷ [] else db.lists k') ≡ true
    still j k' true m = ground (arith, mem-append j n (db.lists k'))
    still j k' false m = m

    listed_new :
        (j : ℕ) (k' : Kind) (b : Bool)
        → j ≡ n
        → b ≡ true
        → mem j (if b then db.lists k' ++ n ∷ [] else db.lists k') ≡ true
    listed_new j k' true p q = ground (arith, mem-append j n (db.lists k'))
    listed_new j k' false p q = cc

    after :
        (j : ℕ) (k' : Kind)
        → IsOpen j k' (create k db)
        → mem j (if same_kind k k' then db.lists k' ++ n ∷ [] else db.lists k') ≡ true
    after j k' o = elim (get_elem?-append db.children _ j o.child o.there) [
      | inl p ↦
          listed_new j k' (same_kind k k') p.0
            (ap (same_kind k) (sym o.of_kind ∙ ap Child.kind p.1) ∙ same_kind_refl k)
      | inr g ↦ still j k' (same_kind k k') (
          h.listed j k' (record {
            child = o.child;
            there = g;
            of_kind = o.of_kind;
            unrequested = o.unrequested;
          }))
    ]

hold_child-Changed :
    (i : ℕ) (c : Child) (db : Db) → Changed i (held_child c) db (set_child i (held_child c) db)
hold_child-Changed i c db = record {
  children = refl;
  lists = inl refl;
  request = λ e. e;
  holders = refl;
}

release_db-IsListed :
    (db : Db)
    → (db.refs.close_requested ≡ 0 → IsListed db)
    → (release_db db).refs.close_requested ≡ 0
    → IsListed (release_db db)
unfolding release_db db_ref_dec
release_db-IsListed db h e = same_children db _ refl refl (h (ref_dec_keeps_request db.refs e))

release_child-IsListed :
    (i : ℕ) (c : Child) (db : Db)
    → get_elem? db.children i ≡ some c
    → (db.refs.close_requested ≡ 0 → IsListed db)
    → (child_ref_dec i (record c { holders = c.holders - 1 }) db).refs.close_requested ≡ 0
    → IsListed (child_ref_dec i (record c { holders = c.holders - 1 }) db)
release_child-IsListed i c db g h e =
    let ch = child_ref_dec-Changed i (record c { holders = c.holders - 1 }) db in
    Changed-IsListed i _ c db _ g
      (λ r. record {
        child = c;
        there = g;
        of_kind = refl;
        unrequested = ref_dec_keeps_request c.refs r;
      })
      ch (h (ch.request e))

taken-Changed : (i : ℕ) (c : Child) (db : Db) → Changed i (taken_child c) db (taken i c db)
taken-Changed i c db = record {
  children = refl;
  lists = inl refl;
  request = λ e. e;
  holders = refl;
}

destroy-IsListed :
    (i : ℕ) (c : Child) (db : Db)
    → get_elem? db.children i ≡ some c
    → (db.refs.close_requested ≡ 0 → IsListed db)
    → (close_child i (taken i c db)).refs.close_requested ≡ 0
    → IsListed (close_child i (taken i c db))
destroy-IsListed i c db g h e = close_child-IsListed i _ (
    Changed-IsListed i (taken_child c) c db _ g
      (λ r. record { child = c; there = g; of_kind = refl; unrequested = r }) (taken-Changed i c db)
      (h ((close_child-Closes i (taken i c db)).request e)))

-- A close of the database leaves the request.
pub close_db_requests : (db : Db) → (close_db db).refs.close_requested ≢ 0
close_db_requests db e = elim (close_db-cases db) [
  | inl p ↦ p.1 (sym (ap (λ d. d.refs.close_requested) p.0) ∙ e)
  | inr p ↦
      close_children_requested (record db { refs = requested db.refs }) (λ z. omega arith)
        (db_ref_dec_request _ (sym (ap (λ d. d.refs.close_requested) p.1) ∙ e))
]

Step-IsListed :
    {db db' : Db}
    → Step db db'
    → (db.refs.close_requested ≡ 0 → IsListed db)
    → db'.refs.close_requested ≡ 0
    → IsListed db'
unfolding create
Step-IsListed {db} (creates k l small) h e = create-IsListed k db e (h e)
Step-IsListed {db} (holds_db db' q small) h e =
    let (open_, same) = hold_db-result db db' q in
    subst IsListed (sym same) (same_children db _ refl refl (h open_))
Step-IsListed {db} (releases_db l) h e = release_db-IsListed db h e
Step-IsListed {db} (holds_child i c db' g small q) h e =
    let (open_, same) = hold_child-result i c db db' g q in
    subst IsListed (sym same) (
      Changed-IsListed i (held_child c) c db _ g
        (λ r. record { child = c; there = g; of_kind = refl; unrequested = r })
        (hold_child-Changed i c db) (h (sym (ap (λ d. d.refs.close_requested) same) ∙ e)))
Step-IsListed {db} (releases_child i c g l) h e =
    let same = release_child-result i c db g in
    subst IsListed (sym same)
      (release_child-IsListed i c db g h (sym (ap (λ d. d.refs.close_requested) same) ∙ e))
Step-IsListed {db} (destroys_column_family i c g k l) h e =
    let same = destroy-result i c db g in
    subst IsListed (sym same)
      (destroy-IsListed i c db g h (sym (ap (λ d. d.refs.close_requested) same) ∙ e))
Step-IsListed {db} (closes_child i) h e =
    close_child-IsListed i db (h ((close_child-Closes i db).request e))
Step-IsListed {db} closes_db h e = absurd (close_db_requests db e)

pub Reach-IsListed : {db : Db} → Reach db → db.refs.close_requested ≡ 0 → IsListed db
Reach-IsListed start e = record { listed = λ j k o. cc (o.there) }
Reach-IsListed (later r st) e = Step-IsListed st (Reach-IsListed r) e
