-- ===== src/Tests/Freshness.antt =====
-- A question, a write for its tenant, and the question again.
use Prim.Native.String.{◌++◌}
use Prim.Native.String.append
use search_and_retrieval_sys.Prelude.{
  String, ◌≡◌, refl, ap, ◌∙◌, eq_iff, eq_refl, Option, none, some, [], Elem, head, arith,
}
use search_and_retrieval_sys.Prelude.Int.{ℤ, pos, ◌+ℤ◌, ◌<ℤ◌}
use search_and_retrieval_sys.Prelude.Text.{decimal, trim_space}
use search_and_retrieval_sys.Prelude.Sort.{sort}
use search_and_retrieval_sys.Prelude.Maps.{
  Map, lookup, insert, delete, lookup-insert, lookup-delete,
}
use search_and_retrieval_sys.Rag.Citations.{letters}
use search_and_retrieval_sys.Cache.{key, gen_key, generation}
use search_and_retrieval_sys.Cache.Store.{
  Commands, Hashing, Ask, Saved, World, current, begin_ask, save_answer, bump_generation, begins,
  saves, Steps, done, more,
}
use search_and_retrieval_sys.Cache.Store.Generations.{number, IsStore}
use search_and_retrieval_sys.Cache.Store.Fresh.{IsStart, place_of, now, fresh_after_bump}

-- A counter is a text of that many letters.
abbrev or_empty : Option String → String
or_empty none = ""
or_empty (some t) = t

abbrev commands : Commands (Map String)
commands = record {
  get = lookup;
  set = insert;
  incr = λ k s. insert k ("+" ++ or_empty (lookup k s)) s;
  expire = delete;
  parse_int = λ t. pos (letters t);
}

one_more :
    (o : Option String)
    → pos (letters ("+" ++ or_empty o))
      ≡ (elim o [ none ↦ pos 0 | some t ↦ pos (letters t) ]) +ℤ pos 1
unfolding ◌+ℤ◌
one_more none = refl
one_more (some t) = rw (append.cons, append.nil) (ground arith)

incremented :
    (k : String) (s : Map String)
    → number commands k (commands.incr k s) ≡ number commands k s +ℤ pos 1
incremented k s =
    let value : String = "+" ++ or_empty (lookup k s) in
    let here : lookup k (insert k value s) ≡ some value =
      lookup-insert k k value s ∙ rw (eq_refl k) in
    let read : Option String → ℤ = λ o. elim o [ none ↦ pos 0 | some t ↦ pos (letters t) ] in
    ap read here ∙ one_more (lookup k s)

commands-IsStore : IsStore commands
commands-IsStore = record {
  get_set = λ j k v s. lookup-insert j k v s;
  get_expire = λ j k s. lookup-delete j k s;
  get_incr =
      λ j k s h. ground (arith, lookup-insert j k ("+" ++ or_empty (lookup j s)) s, eq_iff j k);
  incr_up = incremented;
}

abbrev hashing : Hashing
hashing = record { hex_sha1 = λ t. t; to_lower = λ t. t; order = λ ks. ks }

abbrev start : World (Map String)
start = record { store = []; asks = []; saved = [] }

start-IsStart : IsStart commands hashing commands-IsStore start
unfolding lookup
start-IsStart = record { none_stored = λ q f g. refl; none_begun = refl; none_saved = refl }

abbrev old_ask : Ask
old_ask = record { tenant = "7"; gen = pos 0 }

abbrev new_ask : Ask
new_ask = record { tenant = "7"; gen = pos 1 }

abbrev before : World (Map String)
before = save_answer commands hashing old_ask "q" [] "old" (begin_ask commands hashing "7" start)

abbrev after : World (Map String)
after =
    save_answer commands hashing new_ask "q" [] "new"
      (begin_ask commands hashing "7" (bump_generation commands hashing "7" before))

start-before : Steps commands hashing start before
unfolding begin_ask current generation gen_key lookup
start-before =
    more (more (done refl) (begins "7" _ refl)) (saves old_ask "q" [] "old" _ (head refl) refl)

before-after : Steps commands hashing (bump_generation commands hashing "7" before) after
unfolding begin_ask save_answer bump_generation current generation gen_key lookup insert key decimal
    trim_space sort
before-after =
    more (more (done refl) (begins "7" _ refl)) (saves new_ask "q" [] "new" _ (head refl) refl)

served :
    commands.get
      (place_of commands hashing commands-IsStore "q" []
        (now commands hashing commands-IsStore after "7"))
      after.store
    ≡ some "new"
unfolding begin_ask save_answer bump_generation current generation gen_key lookup insert key decimal
    trim_space sort
served = refl

fresh_after_bump_example :
    (x : Saved) × Elem x after.saved
    × (x.value ≡ "new")
    × (now commands hashing commands-IsStore before "7" <ℤ x.ask.gen)
    × (¬ (Elem x.ask before.asks × (x.ask.tenant ≡ "7")))
fresh_after_bump_example =
    fresh_after_bump commands hashing commands-IsStore (λ s t e. e) start before after "7" "q" []
      "new" start-IsStart start-before before-after served
