-- ===== src/Keystore/Memory/Laws.antt =====
-- The in-memory backend keeps what `trait Keystore` promises.
use connexa.Prelude.{
  ◌≡◌, refl, ap, ◌∙◌, none, some, List, [], ◌∷◌, map, ok, nat_eq, list_eq, arith, list_beq_iff,
}
use connexa.Dict.{contains, lookup, insert, remove, has, lookup-insert, lookup-remove}
use connexa.Keystore.Types.{Label, EncryptedEntry}
use connexa.Keystore.Backend.Laws.{is_some, label_of, last_put, All, AreDistinct, IsReliable}
use connexa.Keystore.Memory.{MemoryKeystore, put_entry, put_entries, list_entries, memory}

abbrev pub values : MemoryKeystore → List EncryptedEntry
values = map (λ kv. kv.1)

-- Every entry stands under its own label, and no label stands twice.
abbrev pub IsKeyed : MemoryKeystore → Type 0
IsKeyed [] = Unit
IsKeyed ((l, e) ∷ m) = (l ≡ label_of e) × (lookup l m ≡ none) × IsKeyed m

has-contains :
    (m : MemoryKeystore) (l : Label)
    → IsKeyed m
    → contains l (map label_of (values m)) ≡ is_some (lookup l m)
unfolding contains lookup
has-contains [] l v = refl
has-contains ((j, e) ∷ m) l v = ground (arith, has-contains m l v.2, v.0, list_beq_iff j l)

insert-IsKeyed :
    (e : EncryptedEntry) (m : MemoryKeystore) → IsKeyed m → IsKeyed (insert (label_of e) e m)
unfolding insert lookup
insert-IsKeyed e [] v = (refl, refl, tt)
insert-IsKeyed e ((j, f) ∷ m) v = ground (
  arith,
  insert-IsKeyed e m v.2,
  lookup-insert (label_of e) j e m,
  list_beq_iff j (label_of e),
  list_beq_iff (label_of e) j,
)

remove-IsKeyed : (l : Label) (m : MemoryKeystore) → IsKeyed m → IsKeyed (remove l m)
unfolding remove
remove-IsKeyed l [] v = tt
remove-IsKeyed l ((j, f) ∷ m) v = ground (arith, remove-IsKeyed l m v.2, lookup-remove l j m)

put_entries-IsKeyed :
    (es : List EncryptedEntry) (m : MemoryKeystore) → IsKeyed m → IsKeyed (put_entries es m)
unfolding put_entries
put_entries-IsKeyed [] m v = v
put_entries-IsKeyed (e ∷ es) m v =
    put_entries-IsKeyed es (insert (label_of e) e m) (insert-IsKeyed e m v)

lookup-put_entries :
    (es : List EncryptedEntry) (l : Label) (m : MemoryKeystore)
    → lookup l (put_entries es m) ≡ last_put l es (lookup l m)
unfolding put_entries
lookup-put_entries [] l m = refl
lookup-put_entries (e ∷ es) l m =
    lookup-put_entries es l (insert (label_of e) e m)
    ∙ ap (last_put l es) (lookup-insert (label_of e) l e m)

has_lem : (l : Label) (m : MemoryKeystore) → has l m ≡ is_some (lookup l m)
has_lem l m = ground arith

list_entries_lem : (m : MemoryKeystore) → list_entries m ≡ map (λ e. e.metadata) (values m)
unfolding list_entries
list_entries_lem [] = refl
list_entries_lem (kv ∷ m) = ap (◌∷◌ kv.1.metadata) (list_entries_lem m)

values_distinct : (m : MemoryKeystore) → IsKeyed m → AreDistinct (map label_of (values m))
values_distinct [] v = tt
values_distinct ((l, e) ∷ m) v =
    (ground (arith, has-contains m (label_of e) v.2, v.0, v.1), values_distinct m v.2)

lookup_below :
    (j : Label) (f : EncryptedEntry) (m : MemoryKeystore) (es : List EncryptedEntry)
    → lookup j m ≡ none
    → All (λ e. lookup (label_of e) m ≡ some e) es
    → All (λ e. lookup (label_of e) ((j, f) ∷ m) ≡ some e) es
unfolding lookup
lookup_below j f m [] fresh h = tt
lookup_below j f m (e ∷ es) fresh h =
    (ground (arith, list_beq_iff j (label_of e)), lookup_below j f m es fresh h.1)

values_view :
    (m : MemoryKeystore) → IsKeyed m → All (λ e. lookup (label_of e) m ≡ some e) (values m)
unfolding lookup
values_view [] v = tt
values_view ((l, e) ∷ m) v = (
  ground (arith, list_beq_iff l (label_of e)),
  lookup_below l e m (values m) v.1 (values_view m v.2),
)

-- `MemoryKeystore` implements `trait Keystore`: on every state that it can reach no call fails, `put`
-- and `put_many` replace what their labels held and nothing else, `remove` says whether there was
-- an entry, and `list` names every entry once, under the label that `get` finds it by.
pub memory-IsReliable : IsReliable memory IsKeyed lookup values
unfolding put_entry
memory-IsReliable = record {
  put_result = λ e s. refl;
  put-IsValid = insert-IsKeyed;
  view-put = λ e l s. lookup-insert (label_of e) l e s;
  put_many_result = λ es s. refl;
  put_many-IsValid = put_entries-IsKeyed;
  view-put_many = lookup-put_entries;
  get_lem = λ l s. refl;
  remove_result = λ l s. ap ok (has_lem l s);
  remove-IsValid = remove-IsKeyed;
  view-remove = lookup-remove;
  list_lem = λ s. λ i. (ok (list_entries_lem s i), s);
  entries_view = values_view;
  entries_distinct = values_distinct;
  entries_complete = λ s l v. has-contains s l v;
}
