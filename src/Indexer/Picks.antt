-- ===== src/Indexer/Picks.antt =====
-- `newestByDoc` holds the newest version of each document of the batch.

use mathlib.Core.Option.{some-injective}
use search_and_retrieval_sys.Prelude.{
  String, true, false, ◌≡◌, ◌≢◌, refl, sym, ap, ◌∙◌, ◌⊎◌, inl, inr, ◌==◌, ◌&&◌, eq_iff, Option,
  none, some, List, [], ◌∷◌, arith, if◌then◌else◌, All, Elem, head, tail, Bool-cases, Option-cases,
}
use search_and_retrieval_sys.Prelude.Int.{◌≤ℤ◌}
use search_and_retrieval_sys.Prelude.Maps.{
  Map, lookup, insert, lookup-insert, IsFresh, IsMap, IsMap-insert,
}
use search_and_retrieval_sys.Contract.{CanonicalDoc}
use search_and_retrieval_sys.Indexer.{newer, newest_from, newest_by_doc, values}

-- The newest document under one id, the first among equals.
abbrev pick : String → Option CanonicalDoc → List CanonicalDoc → Option CanonicalDoc
pick k o [] = o
pick k o (d ∷ docs) = pick k (if d.doc_id == k && newer d o then some d else o) docs

lookup-newest_from :
    (k : String) (m : Map CanonicalDoc) (docs : List CanonicalDoc)
    → lookup k (newest_from m docs) ≡ pick k (lookup k m) docs
unfolding newest_from
lookup-newest_from k m [] = refl
lookup-newest_from k m (d ∷ docs) =
    lookup-newest_from k (if newer d (lookup d.doc_id m) then insert d.doc_id d m else m) docs
    ∙ ap (λ (o : Option CanonicalDoc). pick k o docs) one
  where
    one :
        lookup k (if newer d (lookup d.doc_id m) then insert d.doc_id d m else m)
        ≡ (if d.doc_id == k && newer d (lookup k m) then some d else lookup k m)
    one = ground (arith, lookup-insert d.doc_id k d m, eq_iff d.doc_id k)

-- `d` is the newest document of the batch under its id.
pub record IsNewest (docs : List CanonicalDoc) (d : CanonicalDoc) : Type 0 where
  pub listed : Elem d docs
  pub newest : (e : CanonicalDoc) → Elem e docs → e.doc_id ≡ d.doc_id → e.version ≤ℤ d.version

pick-some :
    (k : String) (o : Option CanonicalDoc) (docs : List CanonicalDoc) (d : CanonicalDoc)
    → pick k o docs ≡ some d
    → (o ≡ some d) ⊎ (Elem d docs × (d.doc_id ≡ k))
pick-some k o [] d h = inl h
pick-some k o (e ∷ docs) d h =
    elim (pick-some k (if e.doc_id == k && newer e o then some e else o) docs d h) [
      | inl old ↦ pick_here (Bool-cases (e.doc_id == k && newer e o)) old
      | inr (m, same) ↦ inr (tail m, same)
    ]
  where
    pick_here :
        ((e.doc_id == k && newer e o) ≡ true) ⊎ ((e.doc_id == k && newer e o) ≡ false)
        → (if e.doc_id == k && newer e o then some e else o) ≡ some d
        → (o ≡ some d) ⊎ (Elem d (e ∷ docs) × (d.doc_id ≡ k))
    pick_here (inl t) old =
        let same : e ≡ d = some-injective e d (rw t at old) in
        inr (
          head same,
          ap (λ (x : CanonicalDoc). x.doc_id) (sym same) ∙ (eq_iff e.doc_id k).0 (ground arith),
        )
    pick_here (inr f) old = inl (rw f at old)

pick-start :
    (k : String) (o : Option CanonicalDoc) (docs : List CanonicalDoc) (c d : CanonicalDoc)
    → pick k o docs ≡ some d
    → o ≡ some c
    → c.version ≤ℤ d.version
pick-start k o [] c d h e = ground arith
pick-start k o (x ∷ docs) c d h e = ground (
  arith,
  pick-start k (if x.doc_id == k && newer x o then some x else o) docs c d,
  pick-start k (if x.doc_id == k && newer x o then some x else o) docs x d,
)

pick-newest :
    (k : String) (o : Option CanonicalDoc) (docs : List CanonicalDoc) (c d : CanonicalDoc)
    → pick k o docs ≡ some d
    → Elem c docs
    → c.doc_id ≡ k
    → c.version ≤ℤ d.version
pick-newest k o (x ∷ docs) c d h (head e) same = elim (Option-cases o) [
  | inl empty ↦ ground (
    arith,
    pick-start k (if x.doc_id == k && newer x o then some x else o) docs x d,
    eq_iff x.doc_id k,
  )
  | inr (cur, found) ↦ ground (
    arith,
    pick-start k (if x.doc_id == k && newer x o then some x else o) docs x d,
    pick-start k (if x.doc_id == k && newer x o then some x else o) docs cur d,
    eq_iff x.doc_id k,
  )
]
pick-newest k o (x ∷ docs) c d h (tail m) same =
    pick-newest k (if x.doc_id == k && newer x o then some x else o) docs c d h m same
pick-newest k o [] c d h m same = elim m [ ]

-- Every entry stands under its own id.
abbrev Keyed : Map CanonicalDoc → Type 0
Keyed m = All (λ e. e.1.doc_id ≡ e.0) m

Keyed-insert : (d : CanonicalDoc) (m : Map CanonicalDoc) → Keyed m → Keyed (insert d.doc_id d m)
unfolding insert
Keyed-insert d [] h = (refl, tt)
Keyed-insert d ((k, c) ∷ m) h = elim (Bool-cases (k == d.doc_id)) [
  | inl same ↦ rw (same, insert) (refl, h.1)
  | inr other ↦ rw (other, insert) (h.0, Keyed-insert d m h.1)
]

newest_from-Keyed :
    (m : Map CanonicalDoc) (docs : List CanonicalDoc)
    → Keyed m
    → IsMap m
    → Keyed (newest_from m docs) × IsMap (newest_from m docs)
unfolding newest_from
newest_from-Keyed m [] h k = (h, k)
newest_from-Keyed m (d ∷ docs) h k = elim (Bool-cases (newer d (lookup d.doc_id m))) [
  | inl new ↦ rw new (
      newest_from-Keyed (insert d.doc_id d m) docs (Keyed-insert d m h)
        (IsMap-insert d.doc_id d m k))
  | inr old ↦ rw old (newest_from-Keyed m docs h k)
]

IsFresh-values :
    (k : String) (m : Map CanonicalDoc) (d : CanonicalDoc)
    → Keyed m
    → IsFresh k m
    → Elem d (values m)
    → k ≢ d.doc_id
IsFresh-values k ((j, c) ∷ m) d h f (head e) same =
    f.0 (sym h.0 ∙ ap (λ (x : CanonicalDoc). x.doc_id) e ∙ sym same)
IsFresh-values k ((j, c) ∷ m) d h f (tail mem) same = IsFresh-values k m d h.1 f.1 mem same
IsFresh-values k [] d h f mem same = elim mem [ ]

-- What a `range` visits is what the map holds.
lookup_of_values :
    (m : Map CanonicalDoc) (d : CanonicalDoc)
    → Keyed m
    → IsMap m
    → Elem d (values m)
    → lookup d.doc_id m ≡ some d
unfolding lookup
lookup_of_values [] d h u mem = elim mem [ ]
lookup_of_values ((j, c) ∷ m) d h u (head e) =
    let same : j ≡ d.doc_id = sym h.0 ∙ ap (λ (x : CanonicalDoc). x.doc_id) e in
    rw ((eq_iff j d.doc_id).1 same) (ap some e)
lookup_of_values ((j, c) ∷ m) d h u (tail mem) =
    ground
      (arith, eq_iff j d.doc_id, IsFresh-values j m d h.1 u.0 mem, lookup_of_values m d h.1 u.1 mem)

values_of_lookup :
    (m : Map CanonicalDoc) (k : String) (d : CanonicalDoc) → lookup k m ≡ some d → Elem d (values m)
unfolding lookup
values_of_lookup [] k d e = cc
values_of_lookup ((j, c) ∷ m) k d e = elim (Bool-cases (j == k)) [
  | inl same ↦ head (some-injective c d (rw same at e))
  | inr other ↦ tail (values_of_lookup m k d (rw other at e))
]

pick-kept :
    (k : String) (o : Option CanonicalDoc) (docs : List CanonicalDoc) (c : CanonicalDoc)
    → o ≡ some c
    → (d : CanonicalDoc) × (pick k o docs ≡ some d)
pick-kept k o [] c e = (c, e)
pick-kept k o (x ∷ docs) c e = elim (Bool-cases (x.doc_id == k && newer x o)) [
  | inl new ↦ rw new (pick-kept k (some x) docs x refl)
  | inr old ↦ rw old (pick-kept k o docs c e)
]

pick-found :
    (k : String) (o : Option CanonicalDoc) (docs : List CanonicalDoc) (c : CanonicalDoc)
    → Elem c docs
    → c.doc_id ≡ k
    → (d : CanonicalDoc) × (pick k o docs ≡ some d)
pick-found k o [] c m same = elim m [ ]
pick-found k o (x ∷ docs) c (tail m) same =
    pick-found k (if x.doc_id == k && newer x o then some x else o) docs c m same
pick-found k o (x ∷ docs) c (head e) same = elim (Option-cases o) [
  | inl empty ↦
      pick-kept k (if x.doc_id == k && newer x o then some x else o) docs x
        (ground (arith, eq_iff x.doc_id k))
  | inr (cur, found) ↦ elim (Bool-cases (x.doc_id == k && newer x o)) [
    | inl new ↦ rw new (pick-kept k (some x) docs x refl)
    | inr old ↦ rw old (pick-kept k o docs cur found)
  ]
]

-- The map holds the newest document of each id, and no other.
pub newest_by_doc-IsNewest :
    (docs : List CanonicalDoc) (d : CanonicalDoc)
    → Elem d (values (newest_by_doc docs))
    → IsNewest docs d
unfolding newest_by_doc lookup
newest_by_doc-IsNewest docs d mem = record {
  listed = elim (pick-some d.doc_id none docs d picked) [ inl e ↦ absurd (cc) | inr (m, same) ↦ m ];
  newest = λ e m same. pick-newest d.doc_id none docs e d picked m same;
}
  where
    shape : Keyed (newest_from [] docs) × IsMap (newest_from [] docs)
    shape = newest_from-Keyed [] docs tt tt

    picked : pick d.doc_id none docs ≡ some d
    picked =
        sym (lookup-newest_from d.doc_id [] docs)
        ∙ lookup_of_values (newest_from [] docs) d shape.0 shape.1 mem

pub newest_by_doc-covers :
    (docs : List CanonicalDoc) (e : CanonicalDoc)
    → Elem e docs
    → (d : CanonicalDoc) × Elem d (values (newest_by_doc docs)) × (d.doc_id ≡ e.doc_id)
unfolding newest_by_doc lookup
newest_by_doc-covers docs e mem =
    let (d, picked) = pick-found e.doc_id none docs e mem refl in
    let found = lookup-newest_from e.doc_id [] docs ∙ picked in
    (
      d,
      values_of_lookup (newest_from [] docs) e.doc_id d found,
      elim (pick-some e.doc_id none docs d picked) [
        | inl none_some ↦ absurd (cc)
        | inr (m, same) ↦ same
      ],
    )
