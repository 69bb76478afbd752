-- ===== src/DbObject/Closing.antt =====
-- The loops of `DbObject::Shutdown` end with empty lists and ask every child to close.
use erlang_rocksdb.Prelude.{
  ℕ, zero, suc, ◌≤◌, ◌≡◌, ◌≢◌, refl, sym, ◌∙◌, ap, subst, Bool, true, false, some, List, [], ◌∷◌,
  length, get_elem?, if◌then◌else◌, arith, inl, inr, get_elem?-set,
}
use erlang_rocksdb.DbObject.{
  Kind, iterator, column_family, snapshot, tlog_iterator, transaction, same_kind, Child, Db,
  ref_dec, child_ref_dec, close_child, close_list, close_all, close_children,
}
use erlang_rocksdb.DbObject.Balance.{ref_dec_keeps_request}
use erlang_rocksdb.DbObject.Branches.{closing, close_child-cases}
use erlang_rocksdb.DbObject.Loops.{popped, close_list_keeps}
use erlang_rocksdb.DbObject.Shutdown.{
  same_kind-eq, same_kind_refl, mem, IsOpen, child_ref_dec-Changed, opens_before, closed_at,
  mem_other, lists_shrink,
}

-- No call is at work.
pub record IsIdle (db : Db) : Type 0 where
  pub no_holder : db.holders ≡ 0
  pub no_child_holder : (i : ℕ) (c : Child) → get_elem? db.children i ≡ some c → c.holders ≡ 0

-- What `close_child i` does to a database.
pub record Closes (i : ℕ) (db db' : Db) : Type 0 where
  pub opens : (j : ℕ) (k : Kind) → IsOpen j k db' → IsOpen j k db × (j ≢ i)
  pub others : (j : ℕ) (k : Kind) → j ≢ i → mem j (db'.lists k) ≡ mem j (db.lists k)
  pub shrinks : (k : Kind) → length (db'.lists k) ≤ length (db.lists k)
  pub request : db'.refs.close_requested ≡ 0 → db.refs.close_requested ≡ 0
  pub idle : IsIdle db → IsIdle db'

pub close_child-Closes : (i : ℕ) (db : Db) → Closes i db (close_child i db)
close_child-Closes i db = elim (close_child-cases i db) [
  | inl p ↦ subst (Closes i db) (sym p.0) (record {
    opens =
        λ j k o. (o, λ e. p.1 o.child (sym (ap (get_elem? db.children) e) ∙ o.there) o.unrequested);
    others = λ j k d. refl;
    shrinks = λ k. omega arith;
    request = λ e. e;
    idle = λ h. h;
  })
  | inr p ↦ let (c, g, q, step) = p in subst (Closes i db) (sym step) (closes c g)
]
  where
    closes :
        (c : Child)
        → get_elem? db.children i ≡ some c
        → Closes i db (child_ref_dec i (closing c) db)
    closes c g =
        let ch = child_ref_dec-Changed i (closing c) db in
        record {
          opens = λ j k o.
              (opens_before ch (λ e. absurd (never c e)) j k o, closed_at ch c g (never c) j k o);
          others = mem_other ch;
          shrinks = lists_shrink ch;
          request = ch.request;
          idle = λ h. record {
            no_holder = ch.holders ∙ h.no_holder;
            no_child_holder = λ j d f.
                elim (get_elem?-set db.children i j _ d
                  (sym (ap (λ l. get_elem? l j) ch.children) ∙ f)) [
                    | inl p ↦ ap (λ x. x.holders) p.1 ∙ h.no_child_holder i c g
                    | inr p ↦ h.no_child_holder j d p.1
                  ];
          };
        }
      where
        never : (c : Child) → (ref_dec (closing c).refs).0.close_requested ≢ 0
        never c e = omega (arith, ref_dec_keeps_request (closing c).refs e)

-- Every child that is open stands in the list of its class.
pub record IsListed (db : Db) : Type 0 where
  pub listed : (j : ℕ) (k : Kind) → IsOpen j k db → mem j (db.lists k) ≡ true

-- No child of class `k` is open.
pub record IsShut (k : Kind) (db : Db) : Type 0 where
  pub shut : (j : ℕ) → IsOpen j k db → ⊥

-- One round: the front child is closed, and all others that are open are still listed.
round-IsListed :
    (k : Kind) (i : ℕ) (rest : List ℕ) (db : Db)
    → db.lists k ≡ i ∷ rest
    → IsListed db
    → IsListed (close_child i (popped k rest db))
round-IsListed k i rest db e h = record { listed = λ j k' o. after j k' o (cl.opens j k' o) }
  where
    cl : Closes i (popped k rest db) (close_child i (popped k rest db))
    cl = close_child-Closes i (popped k rest db)

    left :
        (j : ℕ) (k' : Kind) (b : Bool)
        → same_kind k k' ≡ b
        → j ≢ i
        → mem j (db.lists k') ≡ true
        → mem j (if b then rest else db.lists k') ≡ true
    left j k' true q d m =
        ground (arith, sym (ap (mem j) (ap db.lists (sym (same_kind-eq k k' q)) ∙ e)) ∙ m, d)
    left j k' false q d m = m

    after :
        (j : ℕ) (k' : Kind)
        → IsOpen j k' (close_child i (popped k rest db))
        → IsOpen j k' (popped k rest db) × (j ≢ i)
        → mem j ((close_child i (popped k rest db)).lists k') ≡ true
    after j k' o p =
        cl.others j k' p.1
        ∙ left j k' (same_kind k k') refl p.1 (
            h.listed j k' (record {
              child = p.0.child;
              there = p.0.there;
              of_kind = p.0.of_kind;
              unrequested = p.0.unrequested;
            }))

popped_list : (k : Kind) (rest : List ℕ) (db : Db) → (popped k rest db).lists k ≡ rest
popped_list k rest db = rw (same_kind_refl k) refl

length_0 : (l : List ℕ) → length l ≤ 0 → l ≡ []
length_0 [] h = refl
length_0 (x ∷ l) h = absurd (omega arith)

-- A round takes one from the list and adds none.
pub close_list_empties :
    (fuel : ℕ) (k : Kind) (db : Db)
    → length (db.lists k) ≤ fuel
    → (close_list fuel k db).lists k ≡ []
unfolding close_list
close_list_empties zero k db l = length_0 (db.lists k) l
close_list_empties (suc fuel) k db l = by_list (close_list_empties fuel k) (db.lists k) refl
  where
    by_list :
        ((d : Db) → length (d.lists k) ≤ fuel → (close_list fuel k d).lists k ≡ [])
        → (r : List ℕ) → db.lists k ≡ r
        → (elim r as (λ x. Db) [
          | [] ↦ db
          | i ∷ rest ↦ close_list fuel k (close_child i (popped k rest db))
        ]).lists
            k
          ≡ []
    by_list again [] e = e
    by_list again (i ∷ rest) e = again _ (
        omega (
          arith,
          (close_child-Closes i (popped k rest db)).shrinks k,
          ap length (popped_list k rest db),
          ap length e,
          l,
        ))

close_list-IsListed :
    (k : Kind) (fuel : ℕ) (db : Db) → IsListed db → IsListed (close_list fuel k db)
close_list-IsListed k fuel db h =
    close_list_keeps IsListed k (λ i rest d e p. round-IsListed k i rest d e p) fuel db h

close_list-IsShut :
    (k k' : Kind) (fuel : ℕ) (db : Db) → IsShut k' db → IsShut k' (close_list fuel k db)
close_list-IsShut k k' fuel db h =
    close_list_keeps (IsShut k') k
      (λ i rest d e p. record {
        shut = λ j o.
            p.shut j (before i rest d j ((close_child-Closes i (popped k rest d)).opens j k' o).0);
      })
      fuel db h
  where
    before :
        (i : ℕ) (rest : List ℕ) (d : Db) (j : ℕ) → IsOpen j k' (popped k rest d) → IsOpen j k' d
    before i rest d j o = record {
      child = o.child;
      there = o.there;
      of_kind = o.of_kind;
      unrequested = o.unrequested;
    }

-- The loop over a list leaves no child of its class open.
close_all-IsShut : (k : Kind) (db : Db) → IsListed db → IsShut k (close_all k db)
unfolding close_all
close_all-IsShut k db h = record {
  shut = λ j o. nowhere j ((close_list-IsListed k (length (db.lists k)) db h).listed j k o);
}
  where
    nowhere : (j : ℕ) → mem j ((close_list (length (db.lists k)) k db).lists k) ≢ true
    nowhere j m = cc (ap (mem j) (close_list_empties (length (db.lists k)) k db (omega arith)), m)

close_all_keeps_IsShut : (k k' : Kind) (db : Db) → IsShut k' db → IsShut k' (close_all k db)
unfolding close_all
close_all_keeps_IsShut k k' db h = close_list-IsShut k k' (length (db.lists k)) db h

close_all-IsListed : (k : Kind) (db : Db) → IsListed db → IsListed (close_all k db)
unfolding close_all
close_all-IsListed k db h = close_list-IsListed k (length (db.lists k)) db h

pub close_children-IsShut : (db : Db) → IsListed db → (k : Kind) → IsShut k (close_children db)
unfolding close_children
close_children-IsShut db h = by_kind
  where
    keep : (k k' : Kind) (d : Db) → IsShut k' d → IsShut k' (close_all k d)
    keep = close_all_keeps_IsShut

    h1 : IsListed (close_all iterator db)
    h1 = close_all-IsListed iterator _ h

    h2 : IsListed (close_all column_family (close_all iterator db))
    h2 = close_all-IsListed column_family _ h1

    h3 : IsListed (close_all snapshot (close_all column_family (close_all iterator db)))
    h3 = close_all-IsListed snapshot _ h2

    by_kind : (k : Kind) → IsShut k (close_children db)
    by_kind iterator = keep transaction iterator _ (
        keep tlog_iterator iterator _ (
          keep snapshot iterator _ (keep column_family iterator _ (close_all-IsShut iterator _ h))))
    by_kind column_family = keep transaction column_family _ (
        keep tlog_iterator column_family _
          (keep snapshot column_family _ (close_all-IsShut column_family _ h1)))
    by_kind snapshot =
        keep transaction snapshot _ (keep tlog_iterator snapshot _ (close_all-IsShut snapshot _ h2))
    by_kind tlog_iterator = keep transaction tlog_iterator _ (close_all-IsShut tlog_iterator _ h3)
    by_kind transaction = close_all-IsShut transaction _ (close_all-IsListed tlog_iterator _ h3)
